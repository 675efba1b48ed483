-- ===== src/Kernel/NetDevice.antt =====
-- The kernel's `struct net_device_ops`: the functions that it calls on a network device.
use char_driver_scull.Base.{ℕ, ℤ}
use char_driver_scull.Kernel.{M}

-- A buffer is given with its length; `Tx` is what the driver answers.
pub record NetDeviceOps (S Tx : Type 0) : Type 0 where
  pub ndo_open : M S ℤ
  pub ndo_stop : M S ℤ
  pub ndo_start_xmit : (skb len : ℕ) → M S Tx

-- A call of one of them.
pub data NetOp : Type 0 where
  up down : NetOp
  send : (skb len : ℕ) → NetOp
