-- ===== src/Tests/Bursts.antt =====
-- The theorems on the DPDK driver, on examples.
use mathlib.Core.List.{reverse_aux}
use char_driver_scull.Base.{List, false, some, none, refl, [], ◌∷◌, ◌≡◌, arith, replicate}
use char_driver_scull.Pmd
use char_driver_scull.Pmd.Burst.{descriptors, store, my_pmd_rx_burst_lem, my_pmd_tx_burst_lem}
use char_driver_scull.Kernel.Driver.{After}
use char_driver_scull.Pmd.Rings.{PortOk}
use char_driver_scull.Pmd.Ops.{PortOp, operate_all}
use char_driver_scull.Pmd.Runs.{my_pmd_eth_dev_ops-Ok}
use char_driver_scull.Tests.{kernel, start}

abbrev queue : Pmd.Queue
queue = record {
  rx_ring = some (replicate 1024 3);
  tx_ring = some (replicate 1024 0);
  rx_head = 1023;
  rx_tail = 0;
  tx_head = 0;
  tx_tail = 1023;
}

my_pmd_rx_burst_lem_example :
    Pmd.my_pmd_rx_burst 3 2 queue
    ≡ some (record queue { rx_head = 1 }, reverse_aux (descriptors (replicate 1024 3) 1023 2) [])
my_pmd_rx_burst_lem_example =
    my_pmd_rx_burst_lem 3 2 queue (replicate 1024 3) refl (omega arith) (omega arith)

my_pmd_tx_burst_lem_example :
    Pmd.my_pmd_tx_burst 3 (8 ∷ 9 ∷ []) queue
    ≡ some (
      record queue { tx_ring = some (store (replicate 1024 0) 1023 2 (8 ∷ 9 ∷ [])); tx_tail = 1 },
      2,
    )
my_pmd_tx_burst_lem_example =
    my_pmd_tx_burst_lem 3 (8 ∷ 9 ∷ []) queue (replicate 1024 0) refl (omega arith) (omega arith)

-- A ring of two descriptors.
abbrev short_queue : Pmd.Queue
short_queue = record queue { rx_ring = some (3 ∷ 4 ∷ []); rx_head = 0 }

abbrev pub port : Pmd.Vars
port = record {
  priv = record {
    pci_dev = 0;
    mmio_base = 0;
    rx_queues = short_queue ∷ short_queue ∷ [];
    tx_queues = short_queue ∷ short_queue ∷ [];
    mac_addr = [];
    port_id = 0;
    link_up = false;
  };
  mac_addrs = [];
  has_ops = false;
  dev_private = false;
}

-- A port with four queues of each kind, none of them set up.
abbrev new_queue : Pmd.Queue
new_queue = record {
  rx_ring = none;
  tx_ring = none;
  rx_head = 0;
  rx_tail = 0;
  tx_head = 0;
  tx_tail = 0;
}

abbrev new_port : Pmd.Vars
new_port = record port {
  priv = record port.priv { rx_queues = replicate 4 new_queue; tx_queues = replicate 4 new_queue };
}

abbrev calls : List PortOp
calls =
    PortOp.configure
    ∷ PortOp.rx_setup 2 1024
    ∷ PortOp.tx_setup 1 2048
    ∷ PortOp.start
    ∷ PortOp.rx_burst 2 5 32
    ∷ PortOp.tx_burst 1 8 (6 ∷ 7 ∷ [])
    ∷ PortOp.stop
    ∷ []

my_pmd_eth_dev_ops-Ok_example :
    After (λ _ w'. PortOk (2 ∷ []) (1 ∷ []) w'.vars) (operate_all kernel calls (start new_port))
my_pmd_eth_dev_ops-Ok_example =
    my_pmd_eth_dev_ops-Ok kernel (λ log n. refl) calls (start new_port) refl refl refl
