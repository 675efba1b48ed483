-- ===== src/Uio.antt =====
-- uio/simple_uio_driver.c: a UIO driver with one mapped BAR and an MSI-X or legacy interrupt.
use char_driver_scull.Base.{List, [], ◌∷◌, ℕ, ℤ, Bool, true, pos, ◌==◌, if◌then◌else◌, nonzero}
use char_driver_scull.Kernel.{Kernel, M, pure, ◌>>=◌, ◌>>◌, get, modify, void, status, number}
use char_driver_scull.Kernel.Driver.{PciDriver}
use char_driver_scull.Kernel.Interface.{Call, enomem}
use char_driver_scull.Kernel.Pci.{PciDev}
pub mod Resources
pub mod Irq
pub mod Life
mod Tests

-- The fields of `struct uio_info` that the driver sets; name, version and memory type are constant.
pub record UioInfo : Type 0 where
  pub mem_addr : ℕ
  pub mem_size : ℕ
  pub irq : ℕ
  pub irq_flags : ℕ
  pub has_irqcontrol : Bool

-- The static variables, and the pointer that `pci_set_drvdata` stores.
pub record Vars : Type 0 where
  pub dummy_uio_info : UioInfo
  pub mmio_base : ℕ
  pub dummy_irq : ℕ
  pub drvdata : ℕ

-- `info` is the address of `dummy_uio_info`.
module _ (k : Kernel) (info : ℕ) where
  -- Optional IRQ control from user space; `irq_on` is an `s32`.
  unfoldable pub dummy_irqcontrol : (irq_on : ℤ) → M Vars ℤ
  dummy_irqcontrol irq_on = do
    v ← get
    void (if nonzero irq_on then Call.enable_irq v.dummy_irq else Call.disable_irq v.dummy_irq)
    pure (pos 0)

  module _ (pdev : PciDev) where
    err_disable_device : ℤ → M Vars ℤ
    err_disable_device ret = do void Call.pci_disable_device; pure ret

    err_release_regions : ℤ → M Vars ℤ
    unfolding err_disable_device
    err_release_regions ret = do void Call.pci_release_regions; err_disable_device ret

    err_iounmap : ℤ → M Vars ℤ
    unfolding err_release_regions
    err_iounmap ret = do v ← get; void (Call.iounmap v.mmio_base); err_release_regions ret

    err_free_irq : ℤ → M Vars ℤ
    unfolding err_iounmap
    err_free_irq ret = do v ← get; void (Call.free_irq v.dummy_irq info); err_iounmap ret

    -- From the assignment of `dummy_uio_info` to the end.
    register : (mmio_start mmio_len : ℕ) → M Vars ℤ
    unfolding err_free_irq
    register mmio_start mmio_len = do
      modify (λ v. record v {
        dummy_uio_info = record {
          mem_addr = mmio_start;
          mem_size = mmio_len;
          irq = v.dummy_irq;
          irq_flags = 0;
          has_irqcontrol = true;
        };
      })
      ret ← status k (Call.uio_register_device info)
      if nonzero ret then err_free_irq ret else do
        void (Call.pci_set_drvdata info)
        modify (λ v. record v { drvdata = info })
        pure (pos 0)

    request_line : (mmio_start mmio_len : ℕ) → M Vars ℤ
    unfolding register err_iounmap
    request_line mmio_start mmio_len = do
      v ← get
      ret ← status k (Call.request_irq v.dummy_irq info)
      if nonzero ret then err_iounmap ret else register mmio_start mmio_len

    -- MSI-X, or the legacy line where it is not available.
    choose_irq : (mmio_start mmio_len : ℕ) → M Vars ℤ
    choose_irq mmio_start mmio_len = do
      ret ← status k (Call.pci_enable_msix_exact 0 1)
      modify (λ v. record v { dummy_irq = if nonzero ret then pdev.irq else pdev.msix_vector })
      request_line mmio_start mmio_len

    map_bar : M Vars ℤ
    unfolding err_release_regions
    map_bar = do
      mmio_start ← number k (Call.pci_resource_start 0)
      mmio_len ← number k (Call.pci_resource_len 0)
      p ← number k (Call.pci_ioremap_bar 0)
      modify (λ v. record v { mmio_base = p })
      if p == 0 then err_release_regions enomem else choose_irq mmio_start mmio_len

    pub dummy_probe : M Vars ℤ
    unfolding err_disable_device
    dummy_probe = do
      ret ← status k Call.pci_enable_device
      if nonzero ret then pure ret else do
        ret ← status k Call.pci_request_regions
        if nonzero ret then err_disable_device ret else map_bar

  pub dummy_remove : M Vars (Unit {0})
  dummy_remove = do
    v ← get
    void (Call.uio_unregister_device v.drvdata)
    void (Call.free_irq v.dummy_irq v.drvdata)
    void (Call.iounmap v.mmio_base)
    void Call.pci_release_regions
    void Call.pci_disable_device
    void Call.pci_disable_msix

abbrev pub dummy_ids : List (ℕ × ℕ)
dummy_ids = (0x1234, 0x11E8) ∷ []

abbrev pub dummy_uio_driver : (k : Kernel) (info : ℕ) → PciDev → PciDriver Vars
dummy_uio_driver k info pdev = record {
  id_table = dummy_ids;
  probe = dummy_probe k info pdev;
  remove = dummy_remove k info;
}
