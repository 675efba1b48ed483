-- ===== src/Nic/Smp/Deadlock.antt =====
-- Interrupts of network/nic.c on a processor that has the lock.
use char_driver_scull.Base.{
  ℕ, length, Bool-cases, if◌then◌else◌, ◌+◌, ◌≡◌, refl, sym, ap, ◌∙◌, true, List, ◌∷◌, ◌++◌, arith,
  inl, inr,
}
use char_driver_scull.Kernel.{Kernel, Event}
use char_driver_scull.Kernel.Interface.{Call}
use char_driver_scull.Kernel.Ledger.{Held}
use char_driver_scull.Nic.{Hardware, has_bit}
use char_driver_scull.Nic.Interrupt.{freed}
use char_driver_scull.Nic.Smp.{
  Xmit, Irq, Cpu, Shared, in_xmit, in_irq, log_event, log_answer, Move, Step, Steps, xmit_holds,
  holders,
}
use char_driver_scull.Nic.Smp.Exclusion.{Exclusive, bit, bit-true, cpu_holds, Steps-one}
use char_driver_scull.Nic.Smp.Position.{At, At-holders, At-cases, At-here}
use char_driver_scull.Nic.Smp.Serial.{go}

module _ (k : Kernel) (hw : Hardware) where
  -- What a processor does that is not between `spin_lock` and `spin_unlock`, while the lock is
  -- taken.
  Move-locked_out :
      {s s' : Shared} {c c' : Cpu}
      → cpu_holds c ≡ 0
      → s.is_locked ≡ true
      → Move k hw s c s' c'
      → (s'.is_locked ≡ true) × (s'.sent ≡ s.sent) × (freed s'.world.log ≡ freed s.world.log)
  Move-locked_out h l Move.map_skb = (l, refl, refl)
  Move-locked_out h l (Move.xmit_spin e) = (l, refl, refl)
  Move-locked_out h l (Move.xmit_lock e) = absurd cc
  Move-locked_out h l Move.put_skb = absurd (omega arith)
  Move-locked_out h l Move.kick = absurd (omega arith)
  Move-locked_out h l Move.xmit_unlock = absurd (omega arith)
  Move-locked_out h l (Move.interrupt e) = (l, refl, refl)
  Move-locked_out h l Move.ack = (l, refl, refl)
  Move-locked_out h l (Move.schedule e) = (l, refl, refl)
  Move-locked_out h l (Move.no_rx e) = (l, refl, refl)
  Move-locked_out h l (Move.no_tx e) = (l, refl, refl)
  Move-locked_out h l (Move.irq_spin b e) = (l, refl, refl)
  Move-locked_out h l (Move.irq_lock b e) = absurd cc
  Move-locked_out h l (Move.complete_one handle more run) = absurd (omega arith)
  Move-locked_out h l Move.irq_unlock = absurd (omega arith)
  Move-locked_out h l Move.wake = (l, refl, refl)

  Move-waiting :
      {s s' : Shared} {x : Xmit} {status : ℕ} {c' : Cpu}
      → has_bit status hw.tx_intr ≡ true
      → s.is_locked ≡ true
      → Move k hw s (in_irq x (Irq.polled status)) s' c'
      → (s' ≡ s) × (c' ≡ in_irq x (Irq.polled status))
  Move-waiting b l (Move.no_tx e) = absurd cc
  Move-waiting b l (Move.irq_spin b' l') = (refl, refl)
  Move-waiting b l (Move.irq_lock b' l') = absurd cc

-- Processor `n` waits for the lock in the handler, on top of a transmission that has it; no buffer
-- has been put into the ring or freed since the state `s`.
pub record Stuck (s : Shared) (n : ℕ) (c : Cpu) (s' : Shared) (cpus : List Cpu) : Type 0 where
  pub waits : At cpus n c
  pub taken : s'.is_locked ≡ true
  pub same_sent : s'.sent ≡ s.sent
  pub same_freed : freed s'.world.log ≡ freed s.world.log

module _ (k : Kernel) (hw : Hardware) (s : Shared) (n : ℕ) where
  Step-Stuck :
      {x : Xmit} {status : ℕ} {v v' : Shared} {cpus cpus' : List Cpu}
      → xmit_holds x ≡ 1
      → has_bit status hw.tx_intr ≡ true
      → holders cpus ≡ bit v.is_locked
      → Stuck s n (in_irq x (Irq.polled status)) v cpus
      → Step k hw v cpus v' cpus'
      → Stuck s n (in_irq x (Irq.polled status)) v' cpus'
  Step-Stuck {x} {status} {v} h b e st (Step.step {c} {c'} {s' = v'} before after m) =
      elim (At-cases before c after n (in_irq x (Irq.polled status)) st.waits) [
        | inl (same, put_back) ↦
            let (sv, sc) = Move-waiting k hw b st.taken (rw same at m) in
            record {
              waits = rw (sym sc) (put_back c');
              taken = rw sv st.taken;
              same_sent = rw sv st.same_sent;
              same_freed = rw sv st.same_freed;
            }
        | inr (stays, two) ↦
            let none : cpu_holds c ≡ 0 = omega (arith, e, ap bit st.taken) in
            let (l, se, f) = Move-locked_out k hw none st.taken m in
            record {
              waits = stays c';
              taken = l;
              same_sent = se ∙ st.same_sent;
              same_freed = f ∙ st.same_freed;
            }
      ]

  -- In every continuation of a state in which the handler waits for its own processor.
  Steps-Stuck :
      {x : Xmit} {status : ℕ} {cpus : List Cpu} {s' : Shared} {cpus' : List Cpu}
      → xmit_holds x ≡ 1
      → has_bit status hw.tx_intr ≡ true
      → holders cpus ≡ bit s.is_locked
      → At cpus n (in_irq x (Irq.polled status))
      → Steps k hw s cpus s' cpus'
      → Stuck s n (in_irq x (Irq.polled status)) s' cpus'
  Steps-Stuck {x} {status} {cpus} h b e a Steps.stay =
      let some_holds = At-holders cpus n (in_irq x (Irq.polled status)) a in
      record {
        waits = a;
        taken = bit-true s.is_locked (omega (arith, e));
        same_sent = refl;
        same_freed = refl;
      }
  Steps-Stuck h b e a (Steps.onward r m) =
      Step-Stuck h b (Steps-one k hw e r) (Steps-Stuck h b e a r) m

-- The status that the card reports, and the state in which the handler tests TX_INTR.
abbrev pub status_at : Kernel → Hardware → Shared → ℕ
status_at k hw s = k.number s.world.log (Call.ioread (s.world.vars.mmio + hw.intr_status_reg))

abbrev pub acked_at : Kernel → Hardware → Shared → Shared
acked_at k hw s =
    let reg = s.world.vars.mmio + hw.intr_status_reg in
    log_event (Event.ran (Call.iowrite (status_at k hw s) reg)) (log_answer k (Call.ioread reg) s)

abbrev pub tested_at : Kernel → Hardware → Shared → Shared
tested_at k hw s =
    if has_bit (status_at k hw s) hw.rx_intr
    then log_event (Event.ran (Call.napi_schedule s.world.vars.netdev)) (acked_at k hw s)
    else acked_at k hw s

module _ (k : Kernel) (hw : Hardware) (rs : Held) (before after : List Cpu) where
  interrupt-tested :
      (x : Xmit) (s : Shared)
      → Steps k hw s
          (before ++ (in_xmit x ∷ after))
          (tested_at k hw s)
          (before ++ (in_irq x (Irq.polled (status_at k hw s)) ∷ after))
  interrupt-tested x s =
      let cpus = before ++ (in_xmit x ∷ after) in
      let first : Steps k hw s cpus s cpus = Steps.stay in
      let read = go k hw before after first (Move.interrupt {x = x} refl) in
      let acked = go k hw before after read Move.ack in
      elim (Bool-cases (has_bit (status_at k hw s) hw.rx_intr)) [
        | inl r ↦ rw r (go k hw before after acked (Move.schedule r))
        | inr r ↦ rw r (go k hw before after acked (Move.no_rx r))
      ]

  -- Whenever a processor has the lock in `mynic_start_xmit` and the card reports a status with the
  -- transmit bit, an interrupt on this processor leads to a state, that of the handler's test of
  -- this bit, which it never leaves: in every continuation from there, whatever the other
  -- processors do, its handler stays at `spin_lock`, the lock stays taken, and no buffer is put
  -- into the ring or freed any more.
  pub interrupt-Stuck :
      (x : Xmit) (s s' : Shared) (cpus' : List Cpu)
      → xmit_holds x ≡ 1
      → has_bit (status_at k hw s) hw.tx_intr ≡ true
      → Exclusive rs s (before ++ (in_xmit x ∷ after))
      → Steps k hw
          (tested_at k hw s)
          (before ++ (in_irq x (Irq.polled (status_at k hw s)) ∷ after))
          s'
          cpus'
      → Steps k hw s
          (before ++ (in_xmit x ∷ after))
          (tested_at k hw s)
          (before ++ (in_irq x (Irq.polled (status_at k hw s)) ∷ after))
        × Stuck
            (tested_at k hw s)
            (length before)
            (in_irq x (Irq.polled (status_at k hw s)))
            s'
            cpus'
  interrupt-Stuck x s s' cpus' h b e r =
      let i = interrupt-tested x s in
      (
        i,
        Steps-Stuck k hw (tested_at k hw s) (length before) h b (Steps-one k hw e.one i)
            (At-here before (in_irq x (Irq.polled (status_at k hw s))) after) r,
      )
