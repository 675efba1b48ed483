-- ===== src/Nic/Fifo.antt =====
-- Runs of network/nic.c: transmissions, interrupts, polls, openings and stops, as a step relation.
use mathlib.Core.List.{reverse, reverse_aux, reverse-append, append_assoc, append-nil}
use char_driver_scull.Base.{
  ℤ, length-reverse_aux, ℕ, zero, suc, ◌+◌, ◌≤◌, ◌<◌, ◌≡◌, ◌≢◌, refl, sym, ap, ◌∙◌, some, List, [],
  ◌∷◌, ◌++◌, arith, length, length-append, take, drop, Bool-cases, inl, inr,
}
use char_driver_scull.Kernel.{Kernel, World, Run}
use char_driver_scull.Kernel.Interface.{Call}
use char_driver_scull.Kernel.Ledger.{Held, ledger}
use char_driver_scull.Nic.{
  Priv, Hardware, NetdevTx, IrqReturn, ring_size, has_bit, mynic_start_xmit, mynic_interrupt,
  mynic_poll, mynic_open, mynic_stop,
}
use char_driver_scull.Nic.Quiet.{Quiet, mynic_poll-Quiet, mynic_open-Quiet, mynic_stop-Quiet}
use char_driver_scull.Nic.Ring.{IsRing}
use char_driver_scull.Nic.Interrupt.{freed, mynic_start_xmit-Queued, mynic_interrupt-Interrupted}

take-append-drop : (n : ℕ) (xs : List ℕ) → take n xs ++ drop n xs ≡ xs
take-append-drop zero xs = refl
take-append-drop (suc n) [] = refl
take-append-drop (suc n) (x ∷ xs) = ap (λ l. x ∷ l) (take-append-drop n xs)

length-take : (n : ℕ) (xs : List ℕ) → n ≤ length xs → length (take n xs) ≡ n
length-take zero xs h = refl
length-take (suc n) [] h = absurd (omega arith)
length-take (suc n) (x ∷ xs) h = ap suc (length-take n xs (omega arith))

pub reverse-reverse_aux : (xs ys : List ℕ) → reverse (reverse_aux xs ys) ≡ reverse ys ++ xs
reverse-reverse_aux [] ys = sym (append-nil (reverse ys))
reverse-reverse_aux (x ∷ xs) ys =
    reverse-reverse_aux xs (x ∷ ys)
    ∙ ap (λ l. l ++ xs) (reverse-append (x ∷ []) ys)
    ∙ append_assoc (reverse ys) (x ∷ []) xs

module _ (k : Kernel) (hw : Hardware) where
  -- `sent` are the buffers given to `mynic_start_xmit` so far. It is called while there is a free
  -- slot, and the hardware reports only packets that have been sent and not yet completed.
  pub data Step (w : World Priv) (sent : List ℕ) (w' : World Priv) (sent' : List ℕ) : Type 0 where
    transmit :
        (skb len : ℕ) (r : NetdevTx)
        → skb ≢ 0
        → length sent < ring_size + length (freed w.log)
        → mynic_start_xmit k hw skb len w ≡ Run.ok r w'
        → sent' ≡ sent ++ (skb ∷ [])
        → Step w sent w' sent'
    interrupt :
        (handles : List ℕ) (r : IrqReturn)
        → length handles + length (freed w.log) ≤ length sent
        → mynic_interrupt k hw handles w ≡ Run.ok r w'
        → sent' ≡ sent
        → Step w sent w' sent'
    poll :
        (budget : ℕ) (lens : List ℕ) (r : ℕ)
        → mynic_poll k hw budget lens w ≡ Run.ok r w'
        → sent' ≡ sent
        → Step w sent w' sent'
    up : (r : ℤ) → mynic_open k hw w ≡ Run.ok r w' → sent' ≡ sent → Step w sent w' sent'
    down : (r : ℤ) → mynic_stop k hw w ≡ Run.ok r w' → sent' ≡ sent → Step w sent w' sent'

  pub data Reaches (start : World Priv) : World Priv → List ℕ → Type 0 where
    here : Reaches start start []
    next :
        {w w' : World Priv} {sent sent' : List ℕ}
        → Reaches start w sent
        → Step w sent w' sent'
        → Reaches start w' sent'

-- The buffers sent are those freed, in that order, and then those in flight, which the ring holds.
pub record InOrder (rs : Held) (w : World Priv) (sent : List ℕ) : Type 0 where
  pub in_flight : List ℕ
  pub order : sent ≡ reverse (freed w.log) ++ in_flight
  pub ring : IsRing w.vars in_flight
  pub held : ledger w.log ≡ some rs

module _ (k : Kernel) (hw : Hardware) (rs : Held) where
  pub length-in_flight :
      (w : World Priv) (sent : List ℕ) (i : InOrder rs w sent)
      → length sent ≡ length (freed w.log) + length i.in_flight
  length-in_flight w sent i = omega (
    arith,
    ap length i.order,
    length-append (reverse (freed w.log)) i.in_flight,
    length-reverse_aux (freed w.log) [],
  )

  transmit-InOrder :
      (skb len : ℕ) (r : NetdevTx) (w w' : World Priv) (sent : List ℕ)
      → skb ≢ 0
      → length sent < ring_size + length (freed w.log)
      → mynic_start_xmit k hw skb len w ≡ Run.ok r w'
      → InOrder rs w sent
      → InOrder rs w' (sent ++ (skb ∷ []))
  transmit-InOrder skb len r w w' sent nz room run i =
      let free : length i.in_flight < ring_size = omega (arith, length-in_flight w sent i) in
      let q = i.in_flight ++ (skb ∷ []) in
      let (_, ring, same, held) =
        rw run at (mynic_start_xmit-Queued k hw skb len w i.in_flight rs i.ring free nz i.held) in
      record {
        in_flight = q;
        order =
            ap (λ l. l ++ (skb ∷ [])) i.order
            ∙ append_assoc (reverse (freed w.log)) i.in_flight (skb ∷ [])
            ∙ ap (λ l. reverse l ++ q) (sym same);
        ring = ring;
        held = held ∙ i.held;
      }

  interrupt-InOrder :
      (handles : List ℕ) (r : IrqReturn) (w w' : World Priv) (sent : List ℕ)
      → length handles + length (freed w.log) ≤ length sent
      → mynic_interrupt k hw handles w ≡ Run.ok r w'
      → InOrder rs w sent
      → InOrder rs w' sent
  interrupt-InOrder handles r w w' sent bound run i =
      let q = i.in_flight in
      let done = take (length handles) q in
      let rest = drop (length handles) q in
      let whole : done ++ rest ≡ q = take-append-drop (length handles) q in
      let n : length handles ≡ length done =
        sym (length-take (length handles) q (omega (arith, length-in_flight w sent i))) in
      let s = k.number w.log (Call.ioread (w.vars.mmio + hw.intr_status_reg)) in
      let done_by =
        rw run at
          (mynic_interrupt-Interrupted k hw handles done rest w rs n (rw whole i.ring) i.held) in
      elim (Bool-cases (has_bit s hw.tx_intr)) [
        | inl b ↦
            let (ring, same, held, _) = rw b at done_by in
            record {
              in_flight = rest;
              order =
                  i.order
                  ∙ ap (λ l. reverse (freed w.log) ++ l) (sym whole)
                  ∙ sym (append_assoc (reverse (freed w.log)) done rest)
                  ∙ ap (λ l. l ++ rest) (sym (reverse-reverse_aux done (freed w.log)))
                  ∙ ap (λ l. reverse l ++ rest) (sym same);
              ring = ring;
              held = held ∙ i.held;
            }
        | inr b ↦
            let (vars, same, held, _) = rw b at done_by in
            record {
              in_flight = q;
              order = i.order ∙ ap (λ l. reverse l ++ q) (sym same);
              ring = rw vars i.ring;
              held = held ∙ i.held;
            }
      ]

  Quiet-InOrder :
      {A : Type 0} (r : A) (w w' : World Priv) (run : Run Priv A) (sent : List ℕ)
      → run ≡ Run.ok r w'
      → Quiet w run
      → InOrder rs w sent
      → InOrder rs w' sent
  Quiet-InOrder r w w' run sent e quiet i =
      let (vars, same, held) = rw e at quiet in
      record {
        in_flight = i.in_flight;
        order = i.order ∙ ap (λ l. reverse l ++ i.in_flight) (sym same);
        ring = rw vars i.ring;
        held = held ∙ i.held;
      }

  -- In every run of transmissions, interrupts, polls, openings and stops, in any order, from an
  -- empty ring: the buffers
  -- sent are those freed, first sent first freed, and then those in flight, which are what the
  -- ring holds; what is held is as at the start, the lock included. Buffers are sent while there
  -- is a free slot, and the hardware reports only packets that have been sent and not completed.
  pub Reaches-InOrder :
      (start w : World Priv) (sent : List ℕ)
      → IsRing start.vars []
      → freed start.log ≡ []
      → ledger start.log ≡ some rs
      → Reaches k hw start w sent
      → InOrder rs w sent
  Reaches-InOrder start w sent ring none_freed held here = record {
    in_flight = [];
    order = ap reverse (sym none_freed) ∙ sym (append-nil (reverse (freed start.log)));
    ring = ring;
    held = held;
  }
  Reaches-InOrder start w sent ring none_freed held (next {w = v} {sent = before} r step) =
      let i = Reaches-InOrder start v before ring none_freed held r in
      elim step [
        | transmit skb len code nz room run e ↦
            rw e (transmit-InOrder skb len code v w before nz room run i)
        | interrupt handles code bound run e ↦
            rw e (interrupt-InOrder handles code v w before bound run i)
        | poll budget lens code run e ↦ rw e (
            Quiet-InOrder code v w (mynic_poll k hw budget lens v) before run
              (mynic_poll-Quiet k hw budget lens v rs i.held) i)
        | up code run e ↦ rw e (
            Quiet-InOrder code v w (mynic_open k hw v) before run
              (mynic_open-Quiet k hw v rs i.held) i)
        | down code run e ↦ rw e (
            Quiet-InOrder code v w (mynic_stop k hw v) before run
              (mynic_stop-Quiet k hw v rs i.held) i)
      ]
