-- ===== src/Pmd/Ops.antt =====
-- The calls on a port of network/dpdk/pmd.c, and the order in which they may come.
use char_driver_scull.Base.{
  ℕ, Bool, true, ◌&&◌, some, none, List, [], ◌∷◌, ltb, leb, get_elem?, set,
}
use char_driver_scull.Kernel.{Kernel, Run, M, pure, ◌>>=◌, ◌>>◌}
use char_driver_scull.Pmd.{
  nb_queues, Queue, Vars, nb_desc_max, my_pmd_eth_dev_ops, my_pmd_rx_burst, my_pmd_tx_burst,
}
use char_driver_scull.Pmd.Rings.{has}

-- What DPDK calls on a port: its operations, and the bursts on its queues.
pub data PortOp : Type 0 where
  configure start stop close link_update : PortOp
  rx_setup tx_setup : (queue_idx nb_desc : ℕ) → PortOp
  rx_burst : (queue_idx avail nb_pkts : ℕ) → PortOp
  tx_burst : (queue_idx free : ℕ) (tx_pkts : List ℕ) → PortOp

-- The queues that have been set up, after an operation.
abbrev pub rxs_after : PortOp → List ℕ → List ℕ
rxs_after (rx_setup i n) rxs = i ∷ rxs
rxs_after _ rxs = rxs

abbrev pub txs_after : PortOp → List ℕ → List ℕ
txs_after (tx_setup i n) txs = i ∷ txs
txs_after _ txs = txs

-- Queues are set up with at least 1024 descriptors, and a burst is on a queue set up before.
abbrev pub is_allowed : (rxs txs : List ℕ) → PortOp → Bool
is_allowed rxs txs (rx_setup i n) = ltb i nb_queues && leb nb_desc_max n
is_allowed rxs txs (tx_setup i n) = ltb i nb_queues && leb nb_desc_max n
is_allowed rxs txs (rx_burst i avail nb_pkts) = has i rxs
is_allowed rxs txs (tx_burst i free tx_pkts) = has i txs
is_allowed rxs txs _ = true

abbrev pub is_ordered : (rxs txs : List ℕ) → List PortOp → Bool
is_ordered rxs txs [] = true
is_ordered rxs txs (op ∷ ops) =
    is_allowed rxs txs op && is_ordered (rxs_after op rxs) (txs_after op txs) ops

abbrev pub all_rxs : List PortOp → List ℕ → List ℕ
all_rxs [] rxs = rxs
all_rxs (op ∷ ops) rxs = all_rxs ops (rxs_after op rxs)

abbrev pub all_txs : List PortOp → List ℕ → List ℕ
all_txs [] txs = txs
all_txs (op ∷ ops) txs = all_txs ops (txs_after op txs)

abbrev pub set_rx_queues : List Queue → Vars → Vars
set_rx_queues qs v = record v { priv = record v.priv { rx_queues = qs } }

abbrev pub set_tx_queues : List Queue → Vars → Vars
set_tx_queues qs v = record v { priv = record v.priv { tx_queues = qs } }

-- A burst on one of the port's queues.
abbrev pub rx_burst_on : (i avail nb_pkts : ℕ) → M Vars (Unit {0})
rx_burst_on i avail nb_pkts w = elim (get_elem? w.vars.priv.rx_queues i) [
  | none ↦ Run.fault
  | some q ↦ elim (my_pmd_rx_burst avail nb_pkts q) [
    | none ↦ Run.fault
    | some (q', pkts) ↦
        Run.ok tt (record w { vars = set_rx_queues (set w.vars.priv.rx_queues i q') w.vars })
  ]
]

abbrev pub tx_burst_on : (i free : ℕ) (tx_pkts : List ℕ) → M Vars (Unit {0})
tx_burst_on i free tx_pkts w = elim (get_elem? w.vars.priv.tx_queues i) [
  | none ↦ Run.fault
  | some q ↦ elim (my_pmd_tx_burst free tx_pkts q) [
    | none ↦ Run.fault
    | some (q', sent) ↦
        Run.ok tt (record w { vars = set_tx_queues (set w.vars.priv.tx_queues i q') w.vars })
  ]
]

module _ (k : Kernel) where
  -- A call through the table of operations, or a burst.
  abbrev pub operate : PortOp → M Vars (Unit {0})
  operate configure = do _ ← (my_pmd_eth_dev_ops k).dev_configure; pure tt
  operate start = do _ ← (my_pmd_eth_dev_ops k).dev_start; pure tt
  operate stop = (my_pmd_eth_dev_ops k).dev_stop
  operate close = (my_pmd_eth_dev_ops k).dev_close
  operate link_update = do _ ← (my_pmd_eth_dev_ops k).link_update; pure tt
  operate (rx_setup i n) = do _ ← (my_pmd_eth_dev_ops k).rx_queue_setup i n; pure tt
  operate (tx_setup i n) = do _ ← (my_pmd_eth_dev_ops k).tx_queue_setup i n; pure tt
  operate (rx_burst i avail nb_pkts) = rx_burst_on i avail nb_pkts
  operate (tx_burst i free tx_pkts) = tx_burst_on i free tx_pkts

  abbrev pub operate_all : List PortOp → M Vars (Unit {0})
  operate_all [] = pure tt
  operate_all (op ∷ ops) = operate op >> operate_all ops
