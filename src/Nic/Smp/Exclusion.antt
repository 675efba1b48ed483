-- ===== src/Nic/Smp/Exclusion.antt =====
-- The lock of network/nic.c on several processors.
use mathlib.Core.List.{reverse, append_assoc, reverse-append}
use char_driver_scull.Base.{
  ℕ, ◌+◌, ◌≤◌, ◌<◌, ◌≡◌, ◌≢◌, refl, sym, ap, ◌∙◌, Bool, true, false, some, List, [], ◌∷◌, ◌++◌,
  arith, length,
}
use char_driver_scull.Kernel.{Kernel, Event, World, note}
use char_driver_scull.Kernel.Driver.{After}
use char_driver_scull.Kernel.Ledger.{Resource, Effect, effect, Held, ledger}
use char_driver_scull.Nic.{Priv, Hardware, ring_size, push, complete}
use char_driver_scull.Nic.Ring.{IsRing, popped-IsRing, push-IsRing}
use char_driver_scull.Nic.Interrupt.{freed, complete_lem}
use char_driver_scull.Nic.Fifo.{InOrder, length-in_flight}
use char_driver_scull.Nic.Smp.{
  Cpu, Shared, Move, Step, Steps, HasRoom, StepHasRoom, AllHaveRoom, xmit_holds, irq_holds, holders,
}

abbrev pub bit : Bool → ℕ
bit false = 0
bit true = 1

abbrev pub with_lock : Bool → Held → Held
with_lock false rs = rs
with_lock true rs = Resource.lock ∷ rs

abbrev pub cpu_holds : Cpu → ℕ
cpu_holds c = xmit_holds c.xmit + irq_holds c.irq

-- The lock is taken exactly when one transmission or handler is between `spin_lock` and
-- `spin_unlock`, and then only one is; the ring holds the buffers in flight, in order.
pub record Exclusive (rs : Held) (s : Shared) (cpus : List Cpu) : Type 0 where
  pub one : holders cpus ≡ bit s.is_locked
  pub in_order : InOrder (with_lock s.is_locked rs) s.world s.sent

pub holders-append :
    (xs : List Cpu) (c : Cpu) (ys : List Cpu)
    → holders (xs ++ (c ∷ ys)) ≡ holders xs + cpu_holds c + holders ys
holders-append [] c ys = omega arith
holders-append (x ∷ xs) c ys = omega (arith, holders-append xs c ys)

pub bit_le_one : (b : Bool) → bit b ≤ 1
bit_le_one false = omega arith
bit_le_one true = omega arith

module _ (k : Kernel) (hw : Hardware) where
  -- A move changes the lock by as much as the number of holders.
  Move-bit :
      {s s' : Shared} {c c' : Cpu}
      → cpu_holds c ≤ bit s.is_locked
      → Move k hw s c s' c'
      → cpu_holds c' + bit s.is_locked ≡ cpu_holds c + bit s'.is_locked
  Move-bit h Move.map_skb = refl
  Move-bit h (Move.xmit_spin e) = refl
  Move-bit h (Move.xmit_lock e) = omega (arith, ap bit e)
  Move-bit h Move.put_skb = refl
  Move-bit h Move.kick = refl
  Move-bit {s} h Move.xmit_unlock = omega (arith, bit_le_one s.is_locked)
  Move-bit h (Move.interrupt e) = refl
  Move-bit h Move.ack = refl
  Move-bit h (Move.schedule e) = refl
  Move-bit h (Move.no_rx e) = refl
  Move-bit h (Move.no_tx e) = refl
  Move-bit h (Move.irq_spin b e) = refl
  Move-bit h (Move.irq_lock b e) = omega (arith, ap bit e)
  Move-bit h (Move.complete_one handle more run) = refl
  Move-bit {s} h Move.irq_unlock = omega (arith, bit_le_one s.is_locked)
  Move-bit h Move.wake = refl

pub bit-true : (b : Bool) → 1 ≤ bit b → b ≡ true
bit-true false h = absurd (omega arith)
bit-true true h = refl

module _ (k : Kernel) (hw : Hardware) where
  -- Mutual exclusion, with the ring overrun or not.
  pub Step-one :
      {s s' : Shared} {cpus cpus' : List Cpu}
      → holders cpus ≡ bit s.is_locked
      → Step k hw s cpus s' cpus'
      → holders cpus' ≡ bit s'.is_locked
  Step-one {s} one (Step.step {c} {c'} {s'} before after m) =
      let count = holders-append before c after in
      let h : cpu_holds c ≤ bit s.is_locked = omega (arith, one) in
      omega (arith, one, holders-append before c' after, Move-bit k hw h m)

  pub Steps-one :
      {s : Shared} {cpus : List Cpu} {s' : Shared} {cpus' : List Cpu}
      → holders cpus ≡ bit s.is_locked
      → Steps k hw s cpus s' cpus'
      → holders cpus' ≡ bit s'.is_locked
  Steps-one one Steps.stay = one
  Steps-one one (Steps.onward r m) = Step-one (Steps-one one r) m

-- A move that changes neither the ring nor a buffer.
relogged :
    {rs rs' : Held} {w w' : World Priv} {sent : List ℕ}
    → freed w'.log ≡ freed w.log
    → w'.vars ≡ w.vars
    → ledger w'.log ≡ some rs'
    → InOrder rs w sent
    → InOrder rs' w' sent
relogged f v l i = record {
  in_flight = i.in_flight;
  order = i.order ∙ ap (λ l. reverse l ++ i.in_flight) (sym f);
  ring = rw v i.ring;
  held = l;
}

-- A call that neither takes nor gives anything, and frees no buffer.
noted :
    {rs : Held} {w : World Priv} {sent : List ℕ} {e : Event}
    → effect e ≡ Effect.neutral
    → freed (e ∷ w.log) ≡ freed w.log
    → InOrder rs w sent
    → InOrder rs (note e w) sent
unfolding ledger
noted n f i = relogged f refl (ground (arith, i.held, n)) i

module _ (k : Kernel) (hw : Hardware) (rs : Held) where
  put-InOrder :
      {held : Held} {w : World Priv} {sent : List ℕ} {skb : ℕ}
      → skb ≢ 0
      → length sent < ring_size + length (freed w.log)
      → InOrder held w sent
      → InOrder held (record w { vars = push skb w.vars }) (sent ++ (skb ∷ []))
  put-InOrder {held} {w} {sent} {skb} nz room i = record {
    in_flight = i.in_flight ++ (skb ∷ []);
    order =
        ap (λ l. l ++ (skb ∷ [])) i.order
        ∙ append_assoc (reverse (freed w.log)) i.in_flight (skb ∷ []);
    ring =
        push-IsRing skb w.vars i.in_flight i.ring
          (omega (arith, length-in_flight k hw held w sent i)) nz;
    held = i.held;
  }

  -- The oldest buffer in flight is freed.
  complete-InOrder :
      (held : Held) (handle : ℕ) (q : List ℕ) (w : World Priv) (sent : List ℕ)
      → sent ≡ reverse (freed w.log) ++ q
      → IsRing w.vars q
      → ledger w.log ≡ some held
      → 0 < length q
      → After (λ _ w'. InOrder held w' sent) (complete k hw handle w)
  unfolding ledger
  complete-InOrder held handle [] w sent o r l h = absurd (omega arith)
  complete-InOrder held handle (x ∷ q) w sent o r l h =
      rw (complete_lem k hw handle x w q r) (record {
        in_flight = q;
        order =
            o
            ∙ sym (append_assoc (reverse (freed w.log)) (x ∷ []) q)
            ∙ ap (λ l. l ++ q) (sym (reverse-append (x ∷ []) (freed w.log)));
        ring = popped-IsRing x w.vars q r;
        held = ground (arith, l);
      })

  -- Every move of a processor keeps the order of the buffers.
  Move-InOrder :
      {s s' : Shared} {c c' : Cpu}
      → cpu_holds c ≤ bit s.is_locked
      → InOrder (with_lock s.is_locked rs) s.world s.sent
      → (m : Move k hw s c s' c') → HasRoom k hw m
      → InOrder (with_lock s'.is_locked rs) s'.world s'.sent
  unfolding ledger
  Move-InOrder h i Move.map_skb room = noted refl refl i
  Move-InOrder h i (Move.xmit_spin e) room = i
  Move-InOrder h i (Move.xmit_lock e) room = relogged refl refl (ground (arith, i.held, e)) i
  Move-InOrder h i Move.put_skb room = put-InOrder room.0 room.1 i
  Move-InOrder h i Move.kick room = noted refl refl i
  Move-InOrder {s} h i Move.xmit_unlock room =
      let e = bit-true s.is_locked (omega arith) in relogged refl refl (ground (arith, i.held, e)) i
  Move-InOrder h i (Move.interrupt e) room = noted refl refl i
  Move-InOrder h i Move.ack room = noted refl refl i
  Move-InOrder h i (Move.schedule e) room = noted refl refl i
  Move-InOrder h i (Move.no_rx e) room = i
  Move-InOrder h i (Move.no_tx e) room = i
  Move-InOrder h i (Move.irq_spin b e) room = i
  Move-InOrder h i (Move.irq_lock b e) room = relogged refl refl (ground (arith, i.held, e)) i
  Move-InOrder {s} h i (Move.complete_one handle more run) room = rw run at (
      complete-InOrder (with_lock s.is_locked rs) handle i.in_flight s.world s.sent i.order i.ring
        i.held (omega (arith, length-in_flight k hw (with_lock s.is_locked rs) s.world s.sent i)))
  Move-InOrder {s} h i Move.irq_unlock room =
      let e = bit-true s.is_locked (omega arith) in relogged refl refl (ground (arith, i.held, e)) i
  Move-InOrder h i Move.wake room = noted refl refl i

  Step-Exclusive :
      {s s' : Shared} {cpus cpus' : List Cpu}
      → Exclusive rs s cpus
      → (m : Step k hw s cpus s' cpus') → StepHasRoom k hw m
      → Exclusive rs s' cpus'
  Step-Exclusive {s} x (Step.step {c} {c'} {s'} before after m) room =
      let count = holders-append before c after in
      let h : cpu_holds c ≤ bit s.is_locked = omega (arith, x.one) in
      record {
        one = Step-one k hw x.one (Step.step before after m);
        in_order = Move-InOrder h x.in_order m room;
      }

  -- In every interleaving of transmissions and interrupts on any number of processors, an
  -- interrupt on top of a transmission included, in which each buffer that is put into the ring is
  -- not NULL and finds a free slot, and the hardware reports only packets that have been sent and
  -- not yet completed, these hold in every state if they hold at the start: at most one
  -- transmission or handler is between `spin_lock` and `spin_unlock`, exactly one if the lock is
  -- taken and none if it is free; the buffers put into the ring are those freed, first put first
  -- freed, and then those in flight, which the ring holds in order; and besides the lock, `rs` is
  -- held.
  pub Steps-Exclusive :
      {s : Shared} {cpus : List Cpu} {s' : Shared} {cpus' : List Cpu}
      → Exclusive rs s cpus
      → (r : Steps k hw s cpus s' cpus') → AllHaveRoom k hw r
      → Exclusive rs s' cpus'
  Steps-Exclusive x Steps.stay room = x
  Steps-Exclusive x (Steps.onward r m) room = Step-Exclusive (Steps-Exclusive x r room.0) m room.1
