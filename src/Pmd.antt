-- ===== src/Pmd.antt =====
-- network/dpdk/pmd.c: a DPDK poll-mode driver with four receive and four transmit queues.
use char_driver_scull.Base.{
  ℕ, ℤ, zero, suc, ◌+◌, ◌*◌, ◌%◌, ◌^◌, Bool, true, false, Option, none, some, List, [], ◌∷◌, pos,
  ◌==◌, ltb, if◌then◌else◌, length, replicate, get_elem?, set,
}
use char_driver_scull.Kernel.{
  Kernel, M, crash, pure, ◌>>=◌, ◌>>◌, get, modify, void, status, number,
}
use char_driver_scull.Kernel.EthDev.{EthDevOps, RtePciDriver}
use char_driver_scull.Kernel.Interface.{Call, enomem}
pub mod Burst
pub mod Queues
pub mod Life
mod Tests
pub mod Link
pub mod Rings
pub mod Ops
pub mod Runs

-- MY_PMD_NB_DESC
abbrev pub nb_desc_max : ℕ
nb_desc_max = 1024

-- MY_PMD_NB_RX_QUEUES, MY_PMD_NB_TX_QUEUES
abbrev pub nb_queues : ℕ
nb_queues = 4

-- `struct my_queue`. A ring is `none` while its pointer is NULL; `hw_ring_base` is not used.
pub record Queue : Type 0 where
  pub rx_ring : Option (List ℕ)
  pub tx_ring : Option (List ℕ)
  pub rx_head : ℕ
  pub rx_tail : ℕ
  pub tx_head : ℕ
  pub tx_tail : ℕ

-- `struct my_pmd_private`.
pub record Private : Type 0 where
  pub pci_dev : ℕ
  pub mmio_base : ℕ
  pub rx_queues : List Queue
  pub tx_queues : List Queue
  pub mac_addr : List ℕ
  pub port_id : ℕ
  pub link_up : Bool

-- The private data, and the fields of the ethernet device that the probe sets.
pub record Vars : Type 0 where
  pub priv : Private
  pub mac_addrs : List ℕ
  pub has_ops : Bool
  -- `pci_dev->device.dev_private`
  pub dev_private : Bool

abbrev pub fake_mac : List ℕ
fake_mac = 0xAA ∷ 0xBB ∷ 0xCC ∷ 0xDD ∷ 0xEE ∷ 0xFF ∷ []

module _ (k : Kernel) where
  -- `memcpy` to the memory of `rte_zmalloc` faults on NULL.
  set_mac : M Vars ℤ
  set_mac = do
    p ← number k (Call.rte_zmalloc 6)
    if p == 0 then crash else do
      modify (λ v. record v { mac_addrs = v.priv.mac_addr; dev_private = true })
      pure (pos 0)

  -- `pci_dev` and `port_id` come from DPDK.
  pub my_pmd_pci_probe : (pci_dev port_id : ℕ) → M Vars ℤ
  unfolding set_mac
  my_pmd_pci_probe pci_dev port_id = do
    mmio ← number k Call.rte_pci_map_resource
    if mmio == 0 then pure enomem else do
      eth_dev ← number k Call.rte_eth_dev_allocate
      if eth_dev == 0 then pure enomem else do
        modify (λ v. record v {
          priv = record v.priv {
            pci_dev = pci_dev;
            mmio_base = mmio;
            port_id = port_id;
            mac_addr = fake_mac;
          };
          has_ops = true;
        })
        set_mac

  pub my_pmd_pci_remove : M Vars ℤ
  my_pmd_pci_remove = do v ← get; void (Call.rte_eth_dev_release_port v.priv.port_id); pure (pos 0)

unfoldable pub my_pmd_dev_configure : M Vars ℤ
my_pmd_dev_configure = pure (pos 0)

pub set_link : Bool → Vars → Vars
set_link b v = record v { priv = record v.priv { link_up = b } }

pub my_pmd_start : M Vars ℤ
unfolding set_link
my_pmd_start = do modify (set_link true); pure (pos 0)

pub my_pmd_stop : M Vars (Unit {0})
unfolding set_link
my_pmd_stop = modify (set_link false)

unfoldable pub my_pmd_close : M Vars (Unit {0})
my_pmd_close = pure tt

-- The link speed is 10G for demonstration.
pub my_pmd_link_update : M Vars ℤ
my_pmd_link_update = do
  v ← get
  void (Call.rte_eth_linkstatus_set (if v.priv.link_up then 1 else 0) 10000)
  pure (pos 0)

-- The memory of `rte_zmalloc_socket`, whose answer is `p`.
abbrev pub zeroed : (p nb_desc : ℕ) → Option (List ℕ)
zeroed p nb_desc = if p == 0 then none else some (replicate nb_desc 0)

pub reset_rx : (p nb_desc : ℕ) → Queue → Queue
reset_rx p nb_desc q = record q { rx_ring = zeroed p nb_desc; rx_head = 0; rx_tail = 0 }

pub reset_tx : (p nb_desc : ℕ) → Queue → Queue
reset_tx p nb_desc q = record q { tx_ring = zeroed p nb_desc; tx_head = 0; tx_tail = 0 }

-- A function on one entry of an array; an index out of range is a fault.
pub on_entry : (i : ℕ) → (Queue → Queue) → List Queue → Option (List Queue)
on_entry i f [] = none
on_entry zero f (q ∷ qs) = some (f q ∷ qs)
on_entry (suc i) f (q ∷ qs) = elim (on_entry i f qs) [ none ↦ none | some qs' ↦ some (q ∷ qs') ]

module _ (k : Kernel) where
  pub my_pmd_rx_queue_setup : (queue_idx nb_desc : ℕ) → M Vars ℤ
  unfolding on_entry reset_rx
  my_pmd_rx_queue_setup queue_idx nb_desc = do
    p ← number k (Call.rte_zmalloc (nb_desc * 8))
    v ← get
    elim (on_entry queue_idx (reset_rx p nb_desc) v.priv.rx_queues) [
      | none ↦ crash
      | some qs ↦ do
        modify (λ v. record v { priv = record v.priv { rx_queues = qs } })
        pure (pos 0)
    ]

  pub my_pmd_tx_queue_setup : (queue_idx nb_desc : ℕ) → M Vars ℤ
  unfolding on_entry reset_tx
  my_pmd_tx_queue_setup queue_idx nb_desc = do
    p ← number k (Call.rte_zmalloc (nb_desc * 8))
    v ← get
    elim (on_entry queue_idx (reset_tx p nb_desc) v.priv.tx_queues) [
      | none ↦ crash
      | some qs ↦ do
        modify (λ v. record v { priv = record v.priv { tx_queues = qs } })
        pure (pos 0)
    ]

-- The receive loop: the hardware has `avail` packets. The result is the queue and the buffers of
-- `rx_pkts`, the latest first; an access out of range or through NULL is `none`.
pub rx_loop : (avail : ℕ) → (nb_pkts received : ℕ) → Queue → List ℕ → Option (Queue × List ℕ)
rx_loop zero nb_pkts received q pkts = some (q, pkts)
rx_loop (suc avail) nb_pkts received q pkts = elim (ltb received nb_pkts) [
  | false ↦ some (q, pkts)
  | true ↦ elim q.rx_ring [
    | none ↦ none
    | some ring ↦ elim (get_elem? ring q.rx_head) [
      | none ↦ none
      | some mbuf ↦
          rx_loop avail nb_pkts (received + 1)
            (record q { rx_head = (q.rx_head + 1) % nb_desc_max }) (mbuf ∷ pkts)
    ]
  ]
]

pub my_pmd_rx_burst : (avail nb_pkts : ℕ) → Queue → Option (Queue × List ℕ)
unfolding rx_loop
my_pmd_rx_burst avail nb_pkts q = rx_loop avail nb_pkts 0 q []

-- The transmit loop over `tx_pkts[sent..nb_pkts)`, with room for `free` packets in the hardware.
pub tx_loop : (free sent : ℕ) (tx_pkts : List ℕ) → Queue → Option (Queue × ℕ)
tx_loop free sent [] q = some (q, sent)
tx_loop zero sent (mbuf ∷ tx_pkts) q = some (q, sent)
tx_loop (suc free) sent (mbuf ∷ tx_pkts) q = elim q.tx_ring [
  | none ↦ none
  | some ring ↦ elim (ltb q.tx_tail (length ring)) [
    | false ↦ none
    | true ↦ tx_loop free (sent + 1) tx_pkts (record q {
      tx_ring = some (set ring q.tx_tail mbuf);
      tx_tail = (q.tx_tail + 1) % nb_desc_max;
    })
  ]
]

pub my_pmd_tx_burst : (free : ℕ) (tx_pkts : List ℕ) → Queue → Option (Queue × ℕ)
unfolding tx_loop
my_pmd_tx_burst free tx_pkts q = tx_loop free 0 tx_pkts q

unfoldable pub my_pmd_init : Kernel → M Vars ℤ
my_pmd_init k = status k Call.rte_eal_pci_register

abbrev pub my_pmd_eth_dev_ops : Kernel → EthDevOps Vars
my_pmd_eth_dev_ops k = record {
  dev_configure = my_pmd_dev_configure;
  dev_start = my_pmd_start;
  dev_stop = my_pmd_stop;
  dev_close = my_pmd_close;
  rx_queue_setup = my_pmd_rx_queue_setup k;
  tx_queue_setup = my_pmd_tx_queue_setup k;
  link_update = my_pmd_link_update;
}

abbrev pub pci_id_my_pmd_map : List (ℕ × ℕ)
pci_id_my_pmd_map = (0x1234, 0x5678) ∷ []

abbrev pub my_pmd_driver : (k : Kernel) (pci_dev port_id : ℕ) → RtePciDriver Vars
my_pmd_driver k pci_dev port_id = record {
  id_table = pci_id_my_pmd_map;
  need_mapping = true;
  probe = my_pmd_pci_probe k pci_dev port_id;
  remove = my_pmd_pci_remove k;
}
