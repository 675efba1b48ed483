-- ===== src/Pcie/Resources.antt =====
-- What `pci_probe` and `pci_remove` of pci_mmio/pcie.c acquire and release.
use char_driver_scull.Base.{ℤ, ◌≡◌, some, ◌∷◌, arith, pos}
use char_driver_scull.Kernel.{Kernel, World, M, pure, ◌>>=◌, ◌>>◌, modify, void, status, number}
use char_driver_scull.Kernel.Interface.{Call, enomem}
use char_driver_scull.Kernel.Ledger.{Resource, Held, ledger}
use char_driver_scull.Kernel.Outcome.{Leaves, Atomic, stage, stage_pointer}
use char_driver_scull.Kernel.Pci.{PciDev}
use char_driver_scull.Pcie.{Vars, pci_probe, pci_remove}

-- What the driver holds while it is bound to the device.
abbrev pub bound : PciDev → Vars → Held → Held
bound pdev v rs =
    Resource.irq_line v.irq_line pdev.self
    ∷ Resource.mapping v.mmio_base
    ∷ Resource.region 0
    ∷ Resource.pci_enabled
    ∷ rs

module _ (k : Kernel) (pdev : PciDev) where
  pub staged_probe : M Vars ℤ
  staged_probe = stage (status k Call.pci_enable_device) (void Call.pci_disable_device) (do
    start ← number k (Call.pci_resource_start 0)
    len ← number k (Call.pci_resource_len 0)
    stage (status k (Call.pci_request_region 0)) (void (Call.pci_release_region 0)) (
        stage_pointer
          (do
            p ← number k (Call.ioremap start len)
            modify (λ v. record v { mmio_base = p })
            pure p)
          enomem (λ p. void (Call.iounmap p))
          λ p. do
            modify (λ v. record v { irq_line = pdev.irq })
            stage (status k (Call.request_irq pdev.irq pdev.self)) (pure tt) (pure (pos 0))))

  -- `pci_probe`, with its four error branches written out, is the staged start `staged_probe`: from
  -- each world it makes the same calls in the same order, and gives the same code and variables.
  pub pci_probe-staged : (w : World Vars) → pci_probe k pdev w ≡ staged_probe w
  unfolding pci_probe staged_probe
  pci_probe-staged w = ground arith

  -- `pci_probe` does not fault. With a nonzero code it holds what it held before; with code 0 it
  -- holds the device, the region, the mapping of `mmio_base` and the interrupt line on top of
  -- that.
  pub pci_probe-Atomic :
      (w : World Vars) (rs : Held)
      → ledger w.log ≡ some rs
      → Atomic (bound pdev) rs (pci_probe k pdev w)
  unfolding pci_probe ledger
  pci_probe-Atomic w rs h = ground arith

  -- `pci_remove`, called with what a successful probe holds on top of `rs`, releases each of these
  -- resources once, in an order that the ledger accepts, and leaves `rs`.
  pub pci_remove-Leaves :
      (w : World Vars) (rs : Held)
      → ledger w.log ≡ some (bound pdev w.vars rs)
      → Leaves rs (pci_remove k pdev w)
  unfolding pci_remove ledger
  pci_remove-Leaves w rs h = ground arith
