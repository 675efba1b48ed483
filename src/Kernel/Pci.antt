-- ===== src/Kernel/Pci.antt =====
-- The fields of `struct pci_dev` that the drivers read.
use char_driver_scull.Base.{ℕ}

pub record PciDev : Type 0 where
  -- the address of the structure itself
  pub self : ℕ
  pub irq : ℕ
  -- `msix_entries[0].vector`
  pub msix_vector : ℕ
