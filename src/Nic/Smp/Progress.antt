-- ===== src/Nic/Smp/Progress.antt =====
-- How the lock of network/nic.c becomes free again.
use mathlib.Core.Path.{subst}
use char_driver_scull.Base.{
  ℕ, ◌==◌, ◌+◌, ◌≡◌, refl, ap, ◌∙◌, true, false, List, [], ◌∷◌, ◌++◌, arith, inl, inr, length,
  Bool-cases,
}
use char_driver_scull.Kernel.{Kernel, Event}
use char_driver_scull.Kernel.Interface.{Call}
use char_driver_scull.Kernel.Ledger.{Held}
use char_driver_scull.Nic.{Hardware, has_bit}
use char_driver_scull.Nic.Smp.{
  Xmit, Irq, Cpu, Shared, in_xmit, in_irq, log_event, Move, Steps, xmit_holds, irq_holds, holders,
}
use char_driver_scull.Nic.Smp.Exclusion.{Exclusive, bit, cpu_holds}
use char_driver_scull.Nic.Smp.Serial.{go}
use char_driver_scull.Nic.Smp.Position.{At}

-- A handler that has not come to the test of TX_INTR will find that bit clear.
abbrev pub NoTx : Hardware → Irq → Type 0
NoTx hw (Irq.read status) = has_bit status hw.tx_intr ≡ false
NoTx hw (Irq.acked status) = has_bit status hw.tx_intr ≡ false
NoTx hw (Irq.polled status) = has_bit status hw.tx_intr ≡ false
NoTx hw i = Unit

-- The lock can become free.
abbrev pub CanFree : Kernel → Hardware → Shared → List Cpu → Type 0
CanFree k hw s cpus =
    (s' : Shared) × (cpus' : List Cpu) × Steps k hw s cpus s' cpus' × (s'.is_locked ≡ false)

module _ (k : Kernel) (hw : Hardware) (before after start_cpus : List Cpu) (start : Shared) where
  -- A processor gets here, while the others stay where they are.
  abbrev Here : Shared → Cpu → Type 0
  Here s c = Steps k hw start start_cpus s (before ++ (c ∷ after))

  abbrev next : {s s' : Shared} {c c' : Cpu} → Here s c → Move k hw s c s' c' → Here s' c'
  next g m = go k hw before after g m

  xmit-CanFree :
      (x : Xmit) (s : Shared)
      → xmit_holds x ≡ 1
      → Here s (in_xmit x)
      → CanFree k hw start start_cpus
  xmit-CanFree Xmit.no_xmit s h g = absurd (omega arith)
  xmit-CanFree (Xmit.mapped skb) s h g = absurd (omega arith)
  xmit-CanFree (Xmit.locked skb) s h g =
      (_, _, next (next (next g Move.put_skb) Move.kick) Move.xmit_unlock, refl)
  xmit-CanFree Xmit.queued s h g = (_, _, next (next g Move.kick) Move.xmit_unlock, refl)
  xmit-CanFree Xmit.kicked s h g = (_, _, next g Move.xmit_unlock, refl)

  polled-CanFree :
      (x : Xmit) (status : ℕ) (s : Shared)
      → xmit_holds x ≡ 1
      → has_bit status hw.tx_intr ≡ false
      → Here s (in_irq x (Irq.polled status))
      → CanFree k hw start start_cpus
  polled-CanFree x status s h b g = xmit-CanFree x s h (next g (Move.no_tx b))

  acked-CanFree :
      (x : Xmit) (status : ℕ) (s : Shared)
      → xmit_holds x ≡ 1
      → has_bit status hw.tx_intr ≡ false
      → Here s (in_irq x (Irq.acked status))
      → CanFree k hw start start_cpus
  acked-CanFree x status s h b g = elim (Bool-cases (has_bit status hw.rx_intr)) [
    | inl r ↦
        let s' = log_event (Event.ran (Call.napi_schedule s.world.vars.netdev)) s in
        polled-CanFree x status s' h b (next g (Move.schedule r))
    | inr r ↦ polled-CanFree x status s h b (next g (Move.no_rx r))
  ]

  -- A processor that is between `spin_lock` and `spin_unlock` in one of the two functions.
  holder-CanFree :
      (x : Xmit) (i : Irq) (s : Shared)
      → xmit_holds x + irq_holds i ≡ 1
      → NoTx hw i
      → Here s (in_irq x i)
      → CanFree k hw start start_cpus
  holder-CanFree x Irq.no_irq s h n g = xmit-CanFree x s (omega arith) g
  holder-CanFree x (Irq.read status) s h n g =
      let e = Event.ran (Call.iowrite status (s.world.vars.mmio + hw.intr_status_reg)) in
      acked-CanFree x status (log_event e s) (omega arith) n (next g Move.ack)
  holder-CanFree x (Irq.acked status) s h n g = acked-CanFree x status s (omega arith) n g
  holder-CanFree x (Irq.polled status) s h n g = polled-CanFree x status s (omega arith) n g
  holder-CanFree x Irq.completing s h n g = (_, _, next g Move.irq_unlock, refl)
  holder-CanFree x Irq.unlocked s h n g =
      let s' = log_event (Event.ran (Call.netif_wake_queue s.world.vars.netdev)) s in
      xmit-CanFree x s' (omega arith) (next g Move.wake)

-- The processor that has the lock.
record Holder (cpus : List Cpu) : Type 0 where
  before : List Cpu
  cpu : Cpu
  after : List Cpu
  split : cpus ≡ before ++ (cpu ∷ after)
  holds : cpu_holds cpu ≡ 1
  at : At cpus (length before) cpu

find-Holder : (cpus : List Cpu) → holders cpus ≡ 1 → Holder cpus
find-Holder [] h = absurd (omega arith)
find-Holder (c ∷ cs) h = elim (Bool-cases (cpu_holds c == 0)) [
  | inl z ↦
      let rest = find-Holder cs (ground (arith, z, h)) in
      record {
        before = c ∷ rest.before;
        cpu = rest.cpu;
        after = rest.after;
        split = ap (λ l. c ∷ l) rest.split;
        holds = rest.holds;
        at = rest.at;
      }
  | inr nz ↦ record {
    before = [];
    cpu = c;
    after = cs;
    split = refl;
    holds = ground (arith, nz, h);
    at = refl;
  }
]

-- When the lock is taken, there are moves after which it is free, if its holder is not a transmission
-- interrupted by a handler that has read a status with the transmit bit, and has not yet come past
-- its test of that bit.
pub Steps-CanFree :
    (k : Kernel) (hw : Hardware) (rs : Held) (s : Shared) (cpus : List Cpu)
    → Exclusive rs s cpus
    → s.is_locked ≡ true
    → ((n : ℕ) (c : Cpu) → At cpus n c → cpu_holds c ≡ 1 → NoTx hw c.irq)
    → CanFree k hw s cpus
Steps-CanFree k hw rs s cpus e l ready =
    let h = find-Holder cpus (e.one ∙ ap bit l) in
    let n = ready (length h.before) h.cpu h.at h.holds in
    let here : Steps k hw s cpus s (h.before ++ (h.cpu ∷ h.after)) =
      subst (λ l. Steps k hw s cpus s l) h.split Steps.stay in
    holder-CanFree k hw h.before h.after cpus s h.cpu.xmit h.cpu.irq s h.holds n here
