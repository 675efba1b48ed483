-- ===== src/Pmd/Life.antt =====
-- The life of a device under the driver of network/dpdk/pmd.c.
use char_driver_scull.Base.{
  ℕ, ◌≡◌, Bool, true, false, some, List, [], ◌∷◌, arith, ◌==◌, if◌then◌else◌, nonzero, not,
}
use char_driver_scull.Kernel.{Kernel, Event, World, pure, ◌>>=◌, answered_number}
use char_driver_scull.Kernel.Driver.{PciDriver, Life, CanGoOn, Life-Safe, After}
use char_driver_scull.Kernel.Interface.{Call}
use char_driver_scull.Kernel.Ledger.{Resource, Held, ledger}
use char_driver_scull.Pmd.{
  Vars, my_pmd_driver, my_pmd_pci_probe, my_pmd_pci_remove, my_pmd_dev_configure, my_pmd_start,
  my_pmd_stop, my_pmd_close,
}
use char_driver_scull.Pmd.Link.{Command, run}

-- The mappings that have been given so far, on top of what is held.
abbrev pub mappings : List Event → Held → Held
mappings [] rs = rs
mappings (Event.gave Call.rte_pci_map_resource p ∷ log) rs =
    if p == 0 then mappings log rs else Resource.mapping p ∷ mappings log rs
mappings (_ ∷ log) rs = mappings log rs

-- The sizes of the memory that `rte_zmalloc` has been asked for, the latest first.
abbrev pub asked : List Event → List ℕ
asked [] = []
asked (Event.gave (Call.rte_zmalloc n) p ∷ log) = n ∷ asked log
asked (_ ∷ log) = asked log

-- Six bytes for each port that has been allocated.
abbrev pub addresses : List Event → List ℕ
addresses [] = []
addresses (Event.gave Call.rte_eth_dev_allocate p ∷ log) =
    if p == 0 then addresses log else 6 ∷ addresses log
addresses (_ ∷ log) = addresses log

-- What is held while the device is not bound, and while it is, and the memory asked for.
abbrev pub AllMapped : Held → Bool → World Vars → Type 0
AllMapped rs false w = (ledger w.log ≡ some (mappings w.log rs)) × (asked w.log ≡ addresses w.log)
AllMapped rs true w =
    (ledger w.log ≡ some (Resource.port ∷ mappings w.log rs)) × (asked w.log ≡ addresses w.log)

module _ (k : Kernel) (pci_dev port_id : ℕ) where
  -- For the PCI bus, which ignores what the removal returns.
  abbrev pub on_bus : PciDriver Vars
  on_bus = record {
    id_table = (my_pmd_driver k pci_dev port_id).id_table;
    probe = (my_pmd_driver k pci_dev port_id).probe;
    remove = (my_pmd_driver k pci_dev port_id).remove >>= λ _. pure tt;
  }

  probe-AllMapped :
      (allocates : (log : List Event) → (k.number log (Call.rte_zmalloc 6) == 0) ≡ false)
      (rs : Held) (w : World Vars)
      → AllMapped rs false w
      → After (λ err w'. AllMapped rs (not (nonzero err)) w') (my_pmd_pci_probe k pci_dev port_id w)
  unfolding my_pmd_pci_probe ledger
  probe-AllMapped allocates rs w h =
      let m = answered_number k Call.rte_pci_map_resource w in
      let a = answered_number k Call.rte_eth_dev_allocate m in ground (arith, allocates a.log)

  run-AllMapped :
      (rs : Held) (c : Command) (w : World Vars)
      → AllMapped rs true w
      → After (λ _ w'. AllMapped rs true w') (run c w)
  unfolding my_pmd_dev_configure my_pmd_start my_pmd_stop my_pmd_close
  run-AllMapped rs Command.configure w h = h
  run-AllMapped rs Command.start w h = h
  run-AllMapped rs Command.stop w h = h
  run-AllMapped rs Command.close w h = h

  remove-AllMapped :
      (rs : Held) (w : World Vars)
      → AllMapped rs true w
      → After (λ _ w'. AllMapped rs false w') (on_bus.remove w)
  unfolding my_pmd_pci_remove ledger
  remove-AllMapped rs w h = ground arith

  -- When `rte_zmalloc` has six bytes for each MAC address, which the probe does not test: in every
  -- history of probes, device operations that configure, start, stop or close the port, and
  -- removals, each mapping that a probe has been given is still held, since neither the probe's
  -- error path for the port nor the removal undoes it; on top of that the port is held while the
  -- device is bound, and no mapping or port besides; `rte_zmalloc` has been called for six bytes
  -- once for each port that has been allocated, and for nothing else. The next call does not fault.
  pub my_pmd_driver-AllMapped :
      (allocates : (log : List Event) → (k.number log (Call.rte_zmalloc 6) == 0) ≡ false)
      (begin w : World Vars) (b : Bool) (rs : Held)
      → ledger begin.log ≡ some (mappings begin.log rs)
      → asked begin.log ≡ addresses begin.log
      → Life on_bus run begin b w
      → AllMapped rs b w × CanGoOn on_bus run b w
  my_pmd_driver-AllMapped allocates begin w b rs h a l =
      Life-Safe on_bus run (λ _ b w. AllMapped rs b w)
        (record {
          probe_law = λ n w h. probe-AllMapped allocates rs w h;
          operate_law = λ c n w h. run-AllMapped rs c w h;
          remove_law = λ n w h. remove-AllMapped rs w h;
        })
        begin w b l (h, a)
