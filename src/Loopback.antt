-- ===== src/Loopback.antt =====
-- network/simple_loopback.c: a network device that delivers to the stack what it is given to send.
use char_driver_scull.Base.{false, ℕ, ℤ, ◌+◌, ◌%◌, ◌^◌, Bool, true, pos, ◌==◌, if◌then◌else◌}
use char_driver_scull.Kernel.{Kernel, M, pure, ◌>>=◌, ◌>>◌, get, modify, void, status, number}
use char_driver_scull.Kernel.NetDevice.{NetDeviceOps}
use char_driver_scull.Kernel.Interface.{Call}
pub mod Stats
pub mod Resources
pub mod Session

-- `dev->stats`, counters of `unsigned long`.
pub record NetDeviceStats : Type 0 where
  pub tx_packets : ℕ
  pub tx_bytes : ℕ
  pub rx_packets : ℕ
  pub rx_bytes : ℕ

-- The static pointer, and the fields of the device.
pub record Vars : Type 0 where
  pub myloop_dev : ℕ
  pub stats : NetDeviceStats
  pub is_loopback : Bool

pub data NetdevTx : Type 0 where
  netdev_tx_ok netdev_tx_busy : NetdevTx

abbrev pub add_ulong : ℕ → ℕ → ℕ
add_ulong a b = (a + b) % 2 ^ 64

count_tx : (len : ℕ) → NetDeviceStats → NetDeviceStats
count_tx len s = record s {
  tx_packets = add_ulong s.tx_packets 1;
  tx_bytes = add_ulong s.tx_bytes len;
}

count_rx : (len : ℕ) → NetDeviceStats → NetDeviceStats
count_rx len s = record s {
  rx_packets = add_ulong s.rx_packets 1;
  rx_bytes = add_ulong s.rx_bytes len;
}

unfoldable pub myloop_open : (dev : ℕ) → M Vars ℤ
myloop_open dev = do void (Call.netif_start_queue dev); pure (pos 0)

unfoldable pub myloop_stop : (dev : ℕ) → M Vars ℤ
myloop_stop dev = do void (Call.netif_stop_queue dev); pure (pos 0)

module _ (k : Kernel) where
  -- `skb->len` is read twice, after `netif_rx` has taken the buffer.
  pub myloop_xmit : (skb : ℕ) → M Vars NetdevTx
  unfolding count_tx count_rx
  myloop_xmit skb = do
    void (Call.skb_orphan skb)
    void (Call.eth_type_trans skb)
    void (Call.netif_rx skb)
    len ← number k (Call.skb_len skb)
    modify (λ v. record v { stats = count_tx len v.stats })
    len ← number k (Call.skb_len skb)
    modify (λ v. record v { stats = count_rx len v.stats })
    pure NetdevTx.netdev_tx_ok

  pub myloop_setup : Vars → Vars
  myloop_setup v = record v { is_loopback = true }

  -- The device that `alloc_netdev` makes: clear, and set up by the driver.
  abbrev new_device : Vars → Vars
  unfolding myloop_setup
  new_device v = myloop_setup (record v {
    is_loopback = false;
    stats = record { tx_packets = 0; tx_bytes = 0; rx_packets = 0; rx_bytes = 0 };
  })

  -- The argument of `register_netdev` is not tested.
  pub myloop_init : M Vars ℤ
  myloop_init = do
    dev ← number k Call.alloc_netdev
    modify (λ v. record (if dev == 0 then v else new_device v) { myloop_dev = dev })
    status k (Call.register_netdev dev)

  pub myloop_exit : M Vars (Unit {0})
  myloop_exit = do
    v ← get
    void (Call.unregister_netdev v.myloop_dev)
    void (Call.free_netdev v.myloop_dev)

abbrev pub myloop_ops : (k : Kernel) (dev : ℕ) → NetDeviceOps Vars NetdevTx
myloop_ops k dev = record {
  ndo_open = myloop_open dev;
  ndo_stop = myloop_stop dev;
  ndo_start_xmit = λ skb len. myloop_xmit k skb;
}
