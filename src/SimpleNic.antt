-- ===== src/SimpleNic.antt =====
-- network/simple_nic.c: the smallest network driver on a PCI device.
use char_driver_scull.Base.{List, [], ◌∷◌, ℕ, ℤ, pos, ◌==◌, if◌then◌else◌, nonzero}
use char_driver_scull.Kernel.{Kernel, M, pure, ◌>>=◌, ◌>>◌, get, modify, void, status, number}
use char_driver_scull.Kernel.Driver.{PciDriver}
use char_driver_scull.Kernel.NetDevice.{NetDeviceOps}
use char_driver_scull.Kernel.Interface.{Call, enomem}
pub mod Resources
pub mod Life
mod Tests

-- The pointer that `pci_set_drvdata` stores.
pub record Vars : Type 0 where
  pub drvdata : ℕ

pub data NetdevTx : Type 0 where
  netdev_tx_ok netdev_tx_busy : NetdevTx

unfoldable pub mynic_open : (dev : ℕ) → M Vars ℤ
mynic_open dev = do void (Call.netif_start_queue dev); pure (pos 0)

unfoldable pub mynic_stop : (dev : ℕ) → M Vars ℤ
mynic_stop dev = do void (Call.netif_stop_queue dev); pure (pos 0)

-- The buffer is dropped.
unfoldable pub mynic_xmit : (skb dev : ℕ) → M Vars NetdevTx
mynic_xmit skb dev = do void (Call.dev_kfree_skb skb); pure NetdevTx.netdev_tx_ok

module _ (k : Kernel) where
  register_failed : (dev : ℕ) → ℤ → M Vars ℤ
  register_failed dev err = do void (Call.free_netdev dev); pure err

  pub mynic_probe : M Vars ℤ
  unfolding register_failed
  mynic_probe = do
    dev ← number k Call.alloc_netdev
    if dev == 0 then pure enomem else do
      void (Call.pci_set_drvdata dev)
      modify (λ v. record v { drvdata = dev })
      err ← status k (Call.register_netdev dev)
      if nonzero err then register_failed dev err else pure (pos 0)

  pub mynic_remove : M Vars (Unit {0})
  mynic_remove = do
    v ← get
    void (Call.unregister_netdev v.drvdata)
    void (Call.free_netdev v.drvdata)

abbrev pub mynic_ids : List (ℕ × ℕ)
mynic_ids = (0x1234, 0x5678) ∷ []

abbrev pub mynic_driver : Kernel → PciDriver Vars
mynic_driver k = record { id_table = mynic_ids; probe = mynic_probe k; remove = mynic_remove k }

-- `dev` is the device of which the operations are.
abbrev pub mynic_ops : (dev : ℕ) → NetDeviceOps Vars NetdevTx
mynic_ops dev = record {
  ndo_open = mynic_open dev;
  ndo_stop = mynic_stop dev;
  ndo_start_xmit = λ skb len. mynic_xmit skb dev;
}
