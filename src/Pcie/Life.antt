-- ===== src/Pcie/Life.antt =====
-- The life of a device under the driver of pci_mmio/pcie.c.
use char_driver_scull.Base.{ℕ, Bool, some, ◌≡◌}
use char_driver_scull.Kernel.{Kernel, World, M, pure, ◌>>=◌}
use char_driver_scull.Kernel.Driver.{
  Life, CanGoOn, Holds, HoldsBound, IsBalanced, Life-Sound, Atomic-After, Leaves-After,
}
use char_driver_scull.Kernel.Ledger.{Held, ledger}
use char_driver_scull.Kernel.Pci.{PciDev}
use char_driver_scull.Pcie.{Vars, irq_handler, pci_irq_driver, pci_probe, pci_remove}
use char_driver_scull.Pcie.Resources.{bound, pci_probe-Atomic, pci_remove-Leaves}

module _ (k : Kernel) (pdev : PciDev) where
  -- An interrupt, by its number.
  abbrev pub operate : ℕ → M Vars (Unit {0})
  operate irq = do _ ← pure (irq_handler irq pdev.self); pure tt

  pci_irq_driver-IsBalanced : IsBalanced (pci_irq_driver k pdev) operate (HoldsBound (bound pdev))
  pci_irq_driver-IsBalanced = record {
    probe_law = λ w rs h.
        Atomic-After (bound pdev) rs (pci_probe k pdev w) (pci_probe-Atomic k pdev w rs h);
    operate_law = λ irq w rs h. h;
    remove_law = λ w rs h. Leaves-After rs (pci_remove k pdev w) (pci_remove-Leaves k pdev w rs h);
  }

  -- In every history of probes, interrupts and removals, with any failures of the probes: while the
  -- device is not bound, the driver holds nothing beyond `rs`, what was held at the start; while it
  -- is bound, it holds the device, the region, the mapping and the interrupt line on top of that. The
  -- next call that the PCI core may make does not fault.
  pub pci_irq_driver-Sound :
      (begin w : World Vars) (b : Bool) (rs : Held)
      → ledger begin.log ≡ some rs
      → Life (pci_irq_driver k pdev) operate begin b w
      → Holds (HoldsBound (bound pdev)) b rs w × CanGoOn (pci_irq_driver k pdev) operate b w
  pci_irq_driver-Sound =
      Life-Sound (pci_irq_driver k pdev) operate (HoldsBound (bound pdev)) pci_irq_driver-IsBalanced
