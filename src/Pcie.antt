-- ===== src/Pcie.antt =====
-- pci_mmio/pcie.c: a PCI driver that maps one BAR and handles one shared interrupt.
use char_driver_scull.Base.{List, [], ◌∷◌, ℕ, ℤ, pos, ◌==◌, if◌then◌else◌, nonzero}
use char_driver_scull.Kernel.{Kernel, M, pure, ◌>>=◌, ◌>>◌, get, modify, void, status, number}
use char_driver_scull.Kernel.Driver.{PciDriver}
use char_driver_scull.Kernel.Interface.{Call, enomem}
use char_driver_scull.Kernel.Pci.{PciDev}
pub mod Resources
pub mod Life
mod Tests

-- The static variables `mmio_base` and `irq_line`.
pub record Vars : Type 0 where
  pub mmio_base : ℕ
  pub irq_line : ℕ

pub data IrqReturn : Type 0 where
  irq_none irq_handled : IrqReturn

module _ (k : Kernel) (pdev : PciDev) where
  -- The branch for a failed `request_irq`.
  irq_failed : ℤ → M Vars ℤ
  irq_failed err = do
    v ← get
    void (Call.iounmap v.mmio_base)
    void (Call.pci_release_region 0)
    void Call.pci_disable_device
    pure err

  -- The branch for a failed `ioremap`.
  map_failed : M Vars ℤ
  map_failed = do void (Call.pci_release_region 0); void Call.pci_disable_device; pure enomem

  region_failed : ℤ → M Vars ℤ
  region_failed err = do void Call.pci_disable_device; pure err

  request : M Vars ℤ
  unfolding irq_failed
  request = do
    modify (λ v. record v { irq_line = pdev.irq })
    v ← get
    err ← status k (Call.request_irq v.irq_line pdev.self)
    if nonzero err then irq_failed err else pure (pos 0)

  map_bar : (start len : ℕ) → M Vars ℤ
  unfolding map_failed request
  map_bar start len = do
    p ← number k (Call.ioremap start len)
    modify (λ v. record v { mmio_base = p })
    if p == 0 then map_failed else request

  pub pci_probe : M Vars ℤ
  unfolding map_bar region_failed
  pci_probe = do
    err ← status k Call.pci_enable_device
    if nonzero err then pure err else do
      mmio_start ← number k (Call.pci_resource_start 0)
      mmio_len ← number k (Call.pci_resource_len 0)
      err ← status k (Call.pci_request_region 0)
      if nonzero err then region_failed err else map_bar mmio_start mmio_len

  pub pci_remove : M Vars (Unit {0})
  pci_remove = do
    v ← get
    void (Call.free_irq v.irq_line pdev.self)
    void (Call.iounmap v.mmio_base)
    void (Call.pci_release_region 0)
    void Call.pci_disable_device

unfoldable pub irq_handler : (irq dev_id : ℕ) → IrqReturn
irq_handler irq dev_id = IrqReturn.irq_handled

unfoldable pub pci_irq_init : Kernel → M Vars ℤ
pci_irq_init k = status k Call.pci_register_driver

unfoldable pub pci_irq_exit : M Vars (Unit {0})
pci_irq_exit = void Call.pci_unregister_driver

abbrev pub pci_ids : List (ℕ × ℕ)
pci_ids = (0x1234, 0x5678) ∷ []

abbrev pub pci_irq_driver : Kernel → PciDev → PciDriver Vars
pci_irq_driver k pdev = record {
  id_table = pci_ids;
  probe = pci_probe k pdev;
  remove = pci_remove k pdev;
}
