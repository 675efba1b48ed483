-- ===== src/Pcie/Tests.antt =====
-- A history of pci_mmio/pcie.c: a probe that succeeds, and one interrupt.
use char_driver_scull.Base.{pos, true, refl, [], ◌∷◌}
use char_driver_scull.Kernel.{Event, World}
use char_driver_scull.Kernel.Interface.{Call}
use char_driver_scull.Kernel.Driver.{Life, CanGoOn, Holds, HoldsBound}
use char_driver_scull.Kernel.Ledger.{ledger}
use char_driver_scull.Pcie.{Vars, pci_irq_driver, pci_probe, irq_handler}
use char_driver_scull.Pcie.Resources.{bound}
use char_driver_scull.Pcie.Life.{operate, pci_irq_driver-Sound}
use char_driver_scull.Tests.{kernel, pdev, start}

abbrev unbound : World Vars
unbound = start (record { mmio_base = 0; irq_line = 0 })

abbrev probed : World Vars
probed = record {
  log =
      Event.returned (Call.request_irq 9 1) (pos 0)
      ∷ Event.gave (Call.ioremap 5 5) 5
      ∷ Event.returned (Call.pci_request_region 0) (pos 0)
      ∷ Event.gave (Call.pci_resource_len 0) 5
      ∷ Event.gave (Call.pci_resource_start 0) 5
      ∷ Event.returned Call.pci_enable_device (pos 0)
      ∷ [];
  vars = record { mmio_base = 5; irq_line = 9 };
}

history : Life (pci_irq_driver kernel pdev) (operate kernel pdev) unbound true probed
unfolding pci_probe irq_handler
history = Life.operated 9 (Life.probed (pos 0) Life.start refl refl) refl

pci_irq_driver-Sound_example :
    Holds (HoldsBound (bound pdev)) true [] probed
    × CanGoOn (pci_irq_driver kernel pdev) (operate kernel pdev) true probed
unfolding ledger
pci_irq_driver-Sound_example = pci_irq_driver-Sound kernel pdev unbound probed true [] refl history
