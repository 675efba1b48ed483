-- ===== src/Nic/Interrupt.antt =====
-- The interrupt handler and the transmit function of network/nic.c over the ring.
use mathlib.Core.List.{reverse_aux}
use char_driver_scull.Base.{
  ℕ, ◌+◌, ◌<◌, ◌≡◌, ◌≢◌, refl, some, List, [], ◌∷◌, ◌++◌, arith, length, if◌then◌else◌,
}
use char_driver_scull.Kernel.{Kernel, Event, World, Run, answered_number, note}
use char_driver_scull.Kernel.Interface.{Call}
use char_driver_scull.Kernel.Ledger.{Resource, Held, ledger}
use char_driver_scull.Nic.{
  Priv, Hardware, NetdevTx, IrqReturn, ring_size, has_bit, mynic_start_xmit, complete, complete_all,
  complete_tx, mynic_interrupt,
}
use char_driver_scull.Nic.Ring.{IsRing, popped, first-slot, popped-IsRing, push-IsRing}

-- The buffers freed so far, the latest first.
abbrev pub freed : List Event → List ℕ
freed [] = []
freed (Event.ran (Call.dev_kfree_skb skb) ∷ log) = skb ∷ freed log
freed (_ ∷ log) = freed log

-- `mynic_start_xmit` accepts the buffer, queues it, and gives the lock back.
abbrev pub Queued : World Priv → List ℕ → Run Priv NetdevTx → Type 0
Queued w q Run.fault = ⊥
Queued w q (Run.ok r w') =
    (r ≡ NetdevTx.netdev_tx_ok)
    × IsRing w'.vars q
    × (freed w'.log ≡ freed w.log)
    × (ledger w'.log ≡ ledger w.log)

-- The buffers `done` have been freed, oldest first, and `q` are still in flight.
abbrev pub Completed : {A : Type 0} → World Priv → List ℕ → List ℕ → Run Priv A → Type 0
Completed w done q Run.fault = ⊥
Completed w done q (Run.ok r w') =
    IsRing w'.vars q
    × (freed w'.log ≡ reverse_aux done (freed w.log))
    × (ledger w'.log ≡ ledger w.log)

-- What the interrupt handler does for the interrupt status `status`: with the transmit bit it frees
-- the buffers `done`; without it the ring and the buffers stay as they are.
abbrev pub Interrupted : Hardware → ℕ → World Priv → List ℕ → List ℕ → Run Priv IrqReturn → Type 0
Interrupted hw status w done q Run.fault = ⊥
Interrupted hw status w done q (Run.ok r w') =
    if has_bit status hw.tx_intr
    then IsRing w'.vars q
      × (freed w'.log ≡ reverse_aux done (freed w.log))
      × (ledger w'.log ≡ ledger w.log)
      × (r ≡ IrqReturn.irq_handled)
    else (w'.vars ≡ w.vars)
      × (freed w'.log ≡ freed w.log)
      × (ledger w'.log ≡ ledger w.log)
      × (r ≡ IrqReturn.irq_handled)

module _ (k : Kernel) (hw : Hardware) where
  -- With a ring that holds the buffers `q`, fewer than 128, and a buffer that is not NULL,
  -- `mynic_start_xmit` returns NETDEV_TX_OK and the ring holds `q` and then this buffer. It frees
  -- nothing, and gives the lock back.
  pub mynic_start_xmit-Queued :
      (skb len : ℕ) (w : World Priv) (q : List ℕ) (rs : Held)
      → IsRing w.vars q
      → length q < ring_size
      → skb ≢ 0
      → ledger w.log ≡ some rs
      → Queued w (q ++ (skb ∷ [])) (mynic_start_xmit k hw skb len w)
  unfolding mynic_start_xmit ledger
  mynic_start_xmit-Queued skb len w q rs r h ne l =
      (refl, push-IsRing skb w.vars q r h ne, refl, ground arith)

  -- One round frees the oldest buffer in flight.
  pub complete_lem :
      (handle x : ℕ) (w : World Priv) (q : List ℕ)
      → IsRing w.vars (x ∷ q)
      → complete k hw handle w
        ≡ Run.ok tt (record {
          log =
              Event.ran (Call.dev_kfree_skb x)
              ∷ Event.ran (Call.dma_unmap_single handle (k.number w.log (Call.skb_len x)))
              ∷ Event.gave (Call.skb_len x) (k.number w.log (Call.skb_len x))
              ∷ w.log;
          vars = popped w.vars;
        })
  unfolding complete
  complete_lem handle x w q r = ground (arith, first-slot x w.vars q r, r.skbs.0)

  complete_all-Completed :
      (handles done q : List ℕ) (w : World Priv) (rs : Held)
      → length handles ≡ length done
      → IsRing w.vars (done ++ q)
      → ledger w.log ≡ some rs
      → Completed w done q (complete_all k hw handles w)
  unfolding complete_all complete ledger
  complete_all-Completed [] [] q w rs e r l = (r, refl, refl)
  complete_all-Completed [] (x ∷ done) q w rs e r l = absurd (omega arith)
  complete_all-Completed (h ∷ hs) [] q w rs e r l = absurd (omega arith)
  complete_all-Completed (h ∷ hs) (x ∷ done) q w rs e r l =
      let w' : World Priv = record {
        log =
            Event.ran (Call.dev_kfree_skb x)
            ∷ Event.ran (Call.dma_unmap_single h (k.number w.log (Call.skb_len x)))
            ∷ Event.gave (Call.skb_len x) (k.number w.log (Call.skb_len x))
            ∷ w.log;
        vars = popped w.vars;
      } in
      rw (complete_lem h x w (done ++ q) r) (
        ground (
          arith,
          complete_all-Completed hs done q w' rs (omega arith)
              (popped-IsRing x w.vars (done ++ q) r) (ground arith),
        ))

  complete_tx-Completed :
      (dev : ℕ) (handles done q : List ℕ) (w : World Priv) (rs : Held)
      → length handles ≡ length done
      → IsRing w.vars (done ++ q)
      → ledger w.log ≡ some rs
      → Completed w done q (complete_tx k hw dev handles w)
  unfolding complete_tx ledger
  complete_tx-Completed dev handles done q w rs e r l =
      let locked = note (Event.ran Call.spin_lock) w in
      ground (arith, complete_all-Completed handles done q locked (Resource.lock ∷ rs) e r)

  -- With a ring that holds the buffers `done` and then `q`, and as many completed descriptors as
  -- there are buffers in `done`, the interrupt handler does not fault and reports the interrupt
  -- as handled. If the transmit bit of the status is set, it frees the buffers of `done` in
  -- order and the ring holds `q`; if not, neither the ring nor a buffer changes. It gives back
  -- the lock.
  pub mynic_interrupt-Interrupted :
      (handles done q : List ℕ) (w : World Priv) (rs : Held)
      → length handles ≡ length done
      → IsRing w.vars (done ++ q)
      → ledger w.log ≡ some rs
      → Interrupted hw
          (k.number w.log (Call.ioread (w.vars.mmio + hw.intr_status_reg)))
          w
          done
          q
          (mynic_interrupt k hw handles w)
  unfolding mynic_interrupt ledger
  mynic_interrupt-Interrupted handles done q w rs e r l =
      let c = Call.ioread (w.vars.mmio + hw.intr_status_reg) in
      let s = k.number w.log c in
      let a =
        note (Event.ran (Call.iowrite s (w.vars.mmio + hw.intr_status_reg)))
          (answered_number k c w) in
      let n = note (Event.ran (Call.napi_schedule w.vars.netdev)) a in
      ground (
        arith,
        complete_tx-Completed w.vars.netdev handles done q a rs e r,
        complete_tx-Completed w.vars.netdev handles done q n rs e r,
      )
