-- ===== src/Nic/Resources.antt =====
-- What `mynic_probe` and `mynic_remove` of network/nic.c acquire and release.
use char_driver_scull.Base.{ℤ, ◌≡◌, some, ◌∷◌, arith, pos}
use char_driver_scull.Kernel.{Kernel, World, M, pure, ◌>>◌, modify, void, status, number}
use char_driver_scull.Kernel.Interface.{Call, enomem}
use char_driver_scull.Kernel.Ledger.{Resource, Held, ledger}
use char_driver_scull.Kernel.Outcome.{Leaves, Atomic, stage, stage_pointer}
use char_driver_scull.Kernel.Pci.{PciDev}
use char_driver_scull.Nic.{Priv, cleared, mynic_probe, mynic_remove}

-- What the driver holds while it is bound to the device.
abbrev pub bound : PciDev → Priv → Held → Held
bound pdev p rs =
    Resource.napi p.netdev
    ∷ Resource.irq_line pdev.irq p.netdev
    ∷ Resource.registered p.netdev
    ∷ Resource.netdev p.netdev
    ∷ Resource.mapping p.mmio
    ∷ Resource.region 0
    ∷ Resource.pci_enabled
    ∷ rs

module _ (k : Kernel) (pdev : PciDev) where
  -- The same start as nested stages, each undone if a later one fails.
  pub staged_probe : M Priv ℤ
  staged_probe = stage (status k Call.pci_enable_device) (void Call.pci_disable_device) (
      stage (status k (Call.pci_request_region 0)) (void (Call.pci_release_region 0)) (
        stage_pointer (number k (Call.pci_iomap 0)) enomem (λ mmio. void (Call.pci_iounmap mmio))
          λ mmio.
            stage_pointer (number k Call.alloc_netdev) enomem (λ dev. void (Call.free_netdev dev))
              λ dev. do
                modify cleared
                modify (λ p. record p { mmio = mmio; netdev = dev })
                void (Call.pci_set_drvdata dev)
                stage (status k (Call.register_netdev dev)) (void (Call.unregister_netdev dev)) (
                    stage (status k (Call.request_irq pdev.irq dev)) (pure tt)
                      (do void (Call.netif_napi_add dev); pure (pos 0)))))

  -- `mynic_probe` with its labels and `goto` is the staged start `staged_probe`: from each world it
  -- makes the same calls in the same order, and gives the same code and state.
  pub mynic_probe-staged : (w : World Priv) → mynic_probe k pdev w ≡ staged_probe w
  unfolding mynic_probe staged_probe
  mynic_probe-staged w = ground arith

  -- `mynic_probe` does not fault. With a nonzero code it holds what it held before; with code 0
  -- it holds the device, the region, the mapping, the network device and its registration, the
  -- interrupt line and the NAPI instance on top of that.
  pub mynic_probe-Atomic :
      (w : World Priv) (rs : Held)
      → ledger w.log ≡ some rs
      → Atomic (bound pdev) rs (mynic_probe k pdev w)
  unfolding mynic_probe ledger
  mynic_probe-Atomic w rs h = ground arith

  -- `mynic_remove`, called with what a successful probe holds on top of `rs`, leaves `rs`.
  pub mynic_remove-Leaves :
      (w : World Priv) (rs : Held)
      → ledger w.log ≡ some (bound pdev w.vars rs)
      → Leaves rs (mynic_remove k pdev w)
  unfolding mynic_remove ledger
  mynic_remove-Leaves w rs h = ground arith
