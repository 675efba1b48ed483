-- ===== src/Pmd/Runs.antt =====
-- Any sequence of calls on a port of network/dpdk/pmd.c.
use char_driver_scull.Base.{
  ℕ, ◌+◌, ◌*◌, ◌≤◌, ◌<◌, ◌%◌, ◌≡◌, refl, ◌∙◌, true, false, some, List, [], ◌∷◌, arith, ◌==◌, length,
  get_elem?, length-set, min,
}
use char_driver_scull.Kernel.{Kernel, Event, World}
use char_driver_scull.Kernel.Driver.{After, After-bind}
use char_driver_scull.Kernel.Interface.{Call}
use char_driver_scull.Pmd.{
  nb_queues, Queue, Vars, nb_desc_max, reset_rx, reset_tx, my_pmd_rx_queue_setup,
  my_pmd_tx_queue_setup, my_pmd_dev_configure, my_pmd_start, my_pmd_stop, my_pmd_close,
  my_pmd_link_update, set_link,
}
use char_driver_scull.Pmd.Burst.{store, my_pmd_rx_burst_lem, my_pmd_tx_burst_lem}
use char_driver_scull.Pmd.Queues.{on_entry_lem, length-update}
use char_driver_scull.Pmd.Rings.{
  has, RxOk, TxOk, length-store, AllOk-set, AllOk-set, AllOk-update, reset_rx-RxOk, reset_tx-TxOk,
  PortOk, get_elem?-inside, RxOk-some, TxOk-some, set_link-PortOk,
}
use char_driver_scull.Pmd.Ops.{
  PortOp, rxs_after, txs_after, is_allowed, is_ordered, all_rxs, all_txs, operate, operate_all,
}

-- `rte_zmalloc` has memory.
abbrev pub Allocates : Kernel → Type 0
Allocates k = (log : List Event) (n : ℕ) → (k.number log (Call.rte_zmalloc n) == 0) ≡ false

module _ (k : Kernel) where
  rx_setup-Ok :
      (allocates : Allocates k) (rxs txs : List ℕ) (i n : ℕ) (w : World Vars)
      → PortOk rxs txs w.vars
      → i < nb_queues
      → nb_desc_max ≤ n
      → After (λ _ w'. PortOk (i ∷ rxs) txs w'.vars) (operate k (PortOp.rx_setup i n) w)
  unfolding my_pmd_rx_queue_setup
  rx_setup-Ok allocates rxs txs i n w ok lt big =
      let p = k.number w.log (Call.rte_zmalloc (n * 8)) in
      let qs = w.vars.priv.rx_queues in
      let inside : i < length qs = omega (arith, ok.rx_size) in
      rw (After, on_entry_lem i (reset_rx p n) qs inside)
        (record {
          rx_size = length-update i (reset_rx p n) qs ∙ ok.rx_size;
          tx_size = ok.tx_size;
          rx =
              AllOk-update RxOk rxs qs i (reset_rx p n) inside ok.rx
                (λ q. reset_rx-RxOk p n q (allocates w.log (n * 8)) big);
          tx = ok.tx;
        })

  tx_setup-Ok :
      (allocates : Allocates k) (rxs txs : List ℕ) (i n : ℕ) (w : World Vars)
      → PortOk rxs txs w.vars
      → i < nb_queues
      → nb_desc_max ≤ n
      → After (λ _ w'. PortOk rxs (i ∷ txs) w'.vars) (operate k (PortOp.tx_setup i n) w)
  unfolding my_pmd_tx_queue_setup
  tx_setup-Ok allocates rxs txs i n w ok lt big =
      let p = k.number w.log (Call.rte_zmalloc (n * 8)) in
      let qs = w.vars.priv.tx_queues in
      let inside : i < length qs = omega (arith, ok.tx_size) in
      rw (After, on_entry_lem i (reset_tx p n) qs inside)
        (record {
          rx_size = ok.rx_size;
          tx_size = length-update i (reset_tx p n) qs ∙ ok.tx_size;
          rx = ok.rx;
          tx =
              AllOk-update TxOk txs qs i (reset_tx p n) inside ok.tx
                (λ q. reset_tx-TxOk p n q (allocates w.log (n * 8)) big);
        })

  rx_burst-Ok :
      (rxs txs : List ℕ) (i avail nb_pkts : ℕ) (w : World Vars)
      → PortOk rxs txs w.vars
      → has i rxs ≡ true
      → After (λ _ w'. PortOk rxs txs w'.vars) (operate k (PortOp.rx_burst i avail nb_pkts) w)
  rx_burst-Ok rxs txs i avail nb_pkts w ok i_in =
      let qs = w.vars.priv.rx_queues in
      let (q, at, (ring, er, big, hd)) = RxOk-some (get_elem? qs i) (ok.rx i i_in) in
      let n = min avail nb_pkts in
      let q' : Queue = record q { rx_head = (q.rx_head + n) % nb_desc_max } in
      rw (After, at, my_pmd_rx_burst_lem avail nb_pkts q ring er big hd)
        (record {
          rx_size = length-set qs i q' ∙ ok.rx_size;
          tx_size = ok.tx_size;
          rx =
              AllOk-set RxOk rxs qs i q' (get_elem?-inside qs i q at) ok.rx
                (ring, er, big, omega arith);
          tx = ok.tx;
        })

  tx_burst-Ok :
      (rxs txs : List ℕ) (i free : ℕ) (tx_pkts : List ℕ) (w : World Vars)
      → PortOk rxs txs w.vars
      → has i txs ≡ true
      → After (λ _ w'. PortOk rxs txs w'.vars) (operate k (PortOp.tx_burst i free tx_pkts) w)
  tx_burst-Ok rxs txs i free tx_pkts w ok i_in =
      let qs = w.vars.priv.tx_queues in
      let (q, at, (ring, er, big, tl)) = TxOk-some (get_elem? qs i) (ok.tx i i_in) in
      let n = min free (length tx_pkts) in
      let q' : Queue = record q {
        tx_ring = some (store ring q.tx_tail n tx_pkts);
        tx_tail = (q.tx_tail + n) % nb_desc_max;
      } in
      rw (After, at, my_pmd_tx_burst_lem free tx_pkts q ring er big tl)
        (record {
          rx_size = ok.rx_size;
          tx_size = length-set qs i q' ∙ ok.tx_size;
          rx = ok.rx;
          tx = AllOk-set TxOk txs qs i q' (get_elem?-inside qs i q at) ok.tx (
            store ring q.tx_tail n tx_pkts,
            refl,
            omega (arith, big, length-store ring q.tx_tail n tx_pkts),
            omega arith,
          );
        })

  operate-Ok :
      (allocates : Allocates k) (rxs txs : List ℕ) (op : PortOp) (w : World Vars)
      → PortOk rxs txs w.vars
      → is_allowed rxs txs op ≡ true
      → After (λ _ w'. PortOk (rxs_after op rxs) (txs_after op txs) w'.vars) (operate k op w)
  unfolding my_pmd_dev_configure my_pmd_start my_pmd_stop my_pmd_close my_pmd_link_update set_link
  operate-Ok allocates rxs txs PortOp.configure w ok a = ok
  operate-Ok allocates rxs txs PortOp.start w ok a = set_link-PortOk rxs txs w.vars true ok
  operate-Ok allocates rxs txs PortOp.stop w ok a = set_link-PortOk rxs txs w.vars false ok
  operate-Ok allocates rxs txs PortOp.close w ok a = ok
  operate-Ok allocates rxs txs PortOp.link_update w ok a = ok
  operate-Ok allocates rxs txs (PortOp.rx_setup i n) w ok a =
      rx_setup-Ok allocates rxs txs i n w ok (ground (arith, a)) (ground (arith, a))
  operate-Ok allocates rxs txs (PortOp.tx_setup i n) w ok a =
      tx_setup-Ok allocates rxs txs i n w ok (ground (arith, a)) (ground (arith, a))
  operate-Ok allocates rxs txs (PortOp.rx_burst i avail nb_pkts) w ok a =
      rx_burst-Ok rxs txs i avail nb_pkts w ok a
  operate-Ok allocates rxs txs (PortOp.tx_burst i free tx_pkts) w ok a =
      tx_burst-Ok rxs txs i free tx_pkts w ok a

  operate_all-Ok :
      (allocates : Allocates k) (rxs txs : List ℕ) (ops : List PortOp) (w : World Vars)
      → PortOk rxs txs w.vars
      → is_ordered rxs txs ops ≡ true
      → After (λ _ w'. PortOk (all_rxs ops rxs) (all_txs ops txs) w'.vars) (operate_all k ops w)
  operate_all-Ok allocates rxs txs [] w ok o = ok
  operate_all-Ok allocates rxs txs (op ∷ ops) w ok o =
      After-bind (λ v. PortOk (rxs_after op rxs) (txs_after op txs) v.vars) _ w (operate k op)
        (λ _. operate_all k ops) (operate-Ok allocates rxs txs op w ok (ground (arith, o)))
        (λ _ v ok'.
          operate_all-Ok allocates (rxs_after op rxs) (txs_after op txs) ops v ok'
            (ground (arith, o)))

  -- When `rte_zmalloc` has memory, on a port with four receive and four transmit queues: any
  -- sequence of device operations and bursts, in which queues are set up with at least 1024
  -- descriptors and a burst is on a queue set up before, runs without a fault, and each queue that
  -- has been set up ends with a ring of at least 1024 descriptors and an index within 1024.
  pub my_pmd_eth_dev_ops-Ok :
      (allocates : Allocates k) (ops : List PortOp) (w : World Vars)
      → length w.vars.priv.rx_queues ≡ nb_queues
      → length w.vars.priv.tx_queues ≡ nb_queues
      → is_ordered [] [] ops ≡ true
      → After (λ _ w'. PortOk (all_rxs ops []) (all_txs ops []) w'.vars) (operate_all k ops w)
  my_pmd_eth_dev_ops-Ok allocates ops w rx_size tx_size o =
      operate_all-Ok allocates [] [] ops w
        (record {
          rx_size = rx_size;
          tx_size = tx_size;
          rx = λ i i_in. absurd (ground (arith, i_in));
          tx = λ i i_in. absurd (ground (arith, i_in));
        })
        o
