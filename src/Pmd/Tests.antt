-- ===== src/Pmd/Tests.antt =====
-- A device under network/dpdk/pmd.c: bound, started, unbound and bound again.
use char_driver_scull.Base.{true, pos, refl, []}
use char_driver_scull.Kernel.{World, Run}
use char_driver_scull.Kernel.Driver.{Life, CanGoOn}
use char_driver_scull.Kernel.Ledger.{ledger}
use char_driver_scull.Pmd.{
  Vars, my_pmd_pci_probe, set_mac, my_pmd_pci_remove, my_pmd_start, set_link,
}
use char_driver_scull.Pmd.Link.{Command, run}
use char_driver_scull.Pmd.Life.{on_bus, AllMapped, my_pmd_driver-AllMapped}
use char_driver_scull.Tests.{kernel, start}
use char_driver_scull.Tests.Bursts.{port}

abbrev reached : {A : Type 0} → Run Vars A → World Vars → World Vars
reached Run.fault w = w
reached (Run.ok a v) w = v

abbrev first_bound : World Vars
first_bound = reached (my_pmd_pci_probe kernel 1 2 (start port)) (start port)

abbrev started : World Vars
started = reached (my_pmd_start first_bound) first_bound

abbrev unbound : World Vars
unbound = reached (my_pmd_pci_remove kernel started) started

abbrev bound_again : World Vars
bound_again = reached (my_pmd_pci_probe kernel 1 2 unbound) unbound

history : Life (on_bus kernel 1 2) run (start port) true bound_again
unfolding my_pmd_pci_probe set_mac my_pmd_pci_remove my_pmd_start set_link
history =
    Life.probed (pos 0)
      (Life.removed (Life.operated Command.start (Life.probed (pos 0) Life.start refl refl) refl)
        refl)
      refl refl

my_pmd_driver-AllMapped_example :
    AllMapped [] true bound_again × CanGoOn (on_bus kernel 1 2) run true bound_again
unfolding ledger
my_pmd_driver-AllMapped_example =
    my_pmd_driver-AllMapped kernel 1 2 (λ log. refl) (start port) bound_again true [] refl refl
      history
