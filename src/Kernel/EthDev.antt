-- ===== src/Kernel/EthDev.antt =====
-- DPDK's `struct eth_dev_ops`, the functions that it calls on a port of a driver, and its `struct
-- rte_pci_driver`, for one device.
use char_driver_scull.Base.{ℕ, ℤ, Bool, List}
use char_driver_scull.Kernel.{M}

pub record EthDevOps (S : Type 0) : Type 0 where
  pub dev_configure : M S ℤ
  pub dev_start : M S ℤ
  pub dev_stop : M S (Unit {0})
  pub dev_close : M S (Unit {0})
  pub rx_queue_setup : (queue_idx nb_desc : ℕ) → M S ℤ
  pub tx_queue_setup : (queue_idx nb_desc : ℕ) → M S ℤ
  pub link_update : M S ℤ

pub record RtePciDriver (S : Type 0) : Type 0 where
  pub id_table : List (ℕ × ℕ)
  -- RTE_PCI_DRV_NEED_MAPPING in `drv_flags`
  pub need_mapping : Bool
  pub probe : M S ℤ
  pub remove : M S ℤ
