-- ===== src/Nic/Smp/Serial.antt =====
-- The functions of network/nic.c as sequences of the moves of one processor.
use char_driver_scull.Base.{
  ℕ, suc, ◌+◌, ◌≤◌, ◌≡◌, refl, sym, ◌∙◌, true, false, List, [], ◌∷◌, ◌++◌, arith, inl, inr, length,
  Bool-cases, if◌then◌else◌,
}
use char_driver_scull.Kernel.{pure, void, ◌>>◌, Kernel, World, Run, Event, answered_number, note}
use char_driver_scull.Kernel.Driver.{After, After-bind}
use char_driver_scull.Kernel.Interface.{Call}
use char_driver_scull.Nic.{
  Priv, IrqReturn, Hardware, has_bit, mynic_start_xmit, complete, complete_all, complete_tx,
  mynic_interrupt,
}
use char_driver_scull.Nic.Interrupt.{freed}
use char_driver_scull.Nic.Smp.{
  Xmit, Irq, Cpu, Shared, in_irq, in_xmit, Move, Step, Steps, take_lock,
}

-- The lock is free.
abbrev pub unlocked_at : World Priv → List ℕ → Shared
unlocked_at w sent = record { world = w; is_locked = false; sent = sent }

module _ (k : Kernel) (hw : Hardware) (before after : List Cpu) where
  -- One processor goes from one state to another, and the others stay where they are.
  abbrev pub Goes : Shared → Cpu → Shared → Cpu → Type 0
  Goes s c s' c' = Steps k hw s (before ++ (c ∷ after)) s' (before ++ (c' ∷ after))

  pub go :
      {s s' s'' : Shared} {cpus : List Cpu} {c' c'' : Cpu}
      → Steps k hw s cpus s' (before ++ (c' ∷ after))
      → Move k hw s' c' s'' c''
      → Steps k hw s cpus s'' (before ++ (c'' ∷ after))
  go g m = Steps.onward g (Step.step before after m)

  -- From a state with the lock free to one with the lock free.
  mynic_start_xmit-Goes :
      (skb len : ℕ) (w : World Priv) (sent : List ℕ)
      → After
          (λ _ v.
            Goes
              (unlocked_at w sent)
              (in_xmit Xmit.no_xmit)
              (unlocked_at v (sent ++ (skb ∷ [])))
              (in_xmit Xmit.no_xmit))
          (mynic_start_xmit k hw skb len w)
  unfolding mynic_start_xmit
  mynic_start_xmit-Goes skb len w sent =
      let mapped = go Steps.stay (Move.map_skb {skb = skb} {len = len}) in
      let queued = go (go mapped (Move.xmit_lock refl)) Move.put_skb in
      go (go queued Move.kick) Move.xmit_unlock

  -- A round of the loop does not fault, and frees one buffer at most.
  complete-once :
      (handle : ℕ) (w : World Priv)
      → After
          (λ _ w'.
            (complete k hw handle w ≡ Run.ok tt w')
            × (length (freed w'.log) ≤ suc (length (freed w.log)))
            × (w'.vars.netdev ≡ w.vars.netdev))
          (complete k hw handle w)
  unfolding complete
  complete-once handle w = ground arith

  module _ (x : Xmit) (start : Shared) (cpus : List Cpu) where
    -- The handler of this processor can get here.
    abbrev Here : Shared → Irq → Type 0
    Here s i = Steps k hw start cpus s (before ++ (in_irq x i ∷ after))

    -- The loop, from the state in which the handler has just taken the lock.
    complete_all-Here :
        (handles : List ℕ) (netdev : ℕ) (s : Shared)
        → length handles + length (freed s.world.log) ≤ length s.sent
        → s.world.vars.netdev ≡ netdev
        → Here s Irq.completing
        → After
            (λ _ w. Here (record s { world = w }) Irq.completing × (w.vars.netdev ≡ netdev))
            (complete_all k hw handles s.world)
    unfolding complete_all
    complete_all-Here [] netdev s h n g = (g, n)
    complete_all-Here (d ∷ ds) netdev s h n g =
        After-bind
          (λ w.
            (complete k hw d s.world ≡ Run.ok tt w)
            × (length (freed w.log) ≤ suc (length (freed s.world.log)))
            × (w.vars.netdev ≡ s.world.vars.netdev))
          _ s.world (complete k hw d) (λ _. complete_all k hw ds) (complete-once d s.world)
          λ _ w p.
            complete_all-Here ds netdev (record s { world = w }) (omega arith) (p.2 ∙ n)
              (go g (Move.complete_one d (omega arith) p.0))

    -- The branch for TX_INTR.
    complete_tx-Here :
        (handles : List ℕ) (status : ℕ) (w : World Priv) (sent : List ℕ)
        → length handles + length (freed w.log) ≤ length sent
        → has_bit status hw.tx_intr ≡ true
        → Here (unlocked_at w sent) (Irq.polled status)
        → After
            (λ _ w. Here (unlocked_at w sent) Irq.no_irq)
            (complete_tx k hw w.vars.netdev handles w)
    unfolding complete_tx
    complete_tx-Here handles status w sent h b g =
        After-bind
          (λ v.
            Here (record { world = v; is_locked = true; sent = sent }) Irq.completing
            × (v.vars.netdev ≡ w.vars.netdev))
          _ (note (Event.ran Call.spin_lock) w) (complete_all k hw handles)
          (λ _. void Call.spin_unlock >> void (Call.netif_wake_queue w.vars.netdev))
          (complete_all-Here handles w.vars.netdev (take_lock (unlocked_at w sent)) h refl
            (go g (Move.irq_lock b refl)))
          λ _ v (g', n). rw (sym n) (go (go g' Move.irq_unlock) Move.wake)

    -- From the test of TX_INTR on.
    polled-Here :
        (handles : List ℕ) (status : ℕ) (w : World Priv) (sent : List ℕ)
        → length handles + length (freed w.log) ≤ length sent
        → Here (unlocked_at w sent) (Irq.polled status)
        → After
            (λ _ w. Here (unlocked_at w sent) Irq.no_irq)
            ((if has_bit status hw.tx_intr then complete_tx k hw w.vars.netdev handles else pure tt)
              w)
    polled-Here handles status w sent h g = elim (Bool-cases (has_bit status hw.tx_intr)) [
      | inl b ↦ rw b (complete_tx-Here handles status w sent h b g)
      | inr b ↦ rw b (go g (Move.no_tx b))
    ]

    handled-Here :
        (handles : List ℕ) (status : ℕ) (w : World Priv) (sent : List ℕ)
        → length handles + length (freed w.log) ≤ length sent
        → Here (unlocked_at w sent) (Irq.polled status)
        → After
            (λ _ w. Here (unlocked_at w sent) Irq.no_irq)
            (((if has_bit status hw.tx_intr
                  then complete_tx k hw w.vars.netdev handles
                  else pure tt)
                >> pure IrqReturn.irq_handled)
              w)
    handled-Here handles status w sent h g =
        After-bind (λ v. Here (unlocked_at v sent) Irq.no_irq) _ w
          (if has_bit status hw.tx_intr then complete_tx k hw w.vars.netdev handles else pure tt)
          (λ _. pure IrqReturn.irq_handled) (polled-Here handles status w sent h g) (λ _ u g. g)

  -- The hardware reports as many packets as there are `handles`.
  mynic_interrupt-Goes :
      (handles : List ℕ) (x : Xmit) (w : World Priv) (sent : List ℕ)
      → length handles + length (freed w.log) ≤ length sent
      → After
          (λ _ v. Goes (unlocked_at w sent) (in_xmit x) (unlocked_at v sent) (in_xmit x))
          (mynic_interrupt k hw handles w)
  unfolding mynic_interrupt
  mynic_interrupt-Goes handles x w sent h =
      let c = Call.ioread (w.vars.mmio + hw.intr_status_reg) in
      let status = k.number w.log c in
      let a =
        note (Event.ran (Call.iowrite status (w.vars.mmio + hw.intr_status_reg)))
          (answered_number k c w) in
      let n = note (Event.ran (Call.napi_schedule w.vars.netdev)) a in
      let s = unlocked_at w sent in
      let cpus = before ++ (in_xmit x ∷ after) in
      let first : Steps k hw s cpus s cpus = Steps.stay in
      let g = go (go first (Move.interrupt {x = x} refl)) Move.ack in
      elim (Bool-cases (has_bit status hw.rx_intr)) [
        | inl r ↦ rw r (handled-Here x s cpus handles status n sent h (go g (Move.schedule r)))
        | inr r ↦ rw r (handled-Here x s cpus handles status a sent h (go g (Move.no_rx r)))
      ]

  -- `mynic_start_xmit`, with or without a free slot, and `mynic_interrupt`, on
  -- top of a transmission or not and with no more packets reported than were sent and not yet
  -- completed, each run without a pause, are sequences of moves of their processor, while the
  -- others stay where they are: from a state with the lock free to one with the lock free and the
  -- very world, calls and variables, that the function leaves.
  pub nic_operations-Goes :
      (skb len : ℕ) (handles : List ℕ) (x : Xmit) (w : World Priv) (sent : List ℕ)
      → length handles + length (freed w.log) ≤ length sent
      → After
          (λ _ v.
            Goes
              (unlocked_at w sent)
              (in_xmit Xmit.no_xmit)
              (unlocked_at v (sent ++ (skb ∷ [])))
              (in_xmit Xmit.no_xmit))
          (mynic_start_xmit k hw skb len w)
        × After
            (λ _ v. Goes (unlocked_at w sent) (in_xmit x) (unlocked_at v sent) (in_xmit x))
            (mynic_interrupt k hw handles w)
  nic_operations-Goes skb len handles x w sent count =
      (mynic_start_xmit-Goes skb len w sent, mynic_interrupt-Goes handles x w sent count)
