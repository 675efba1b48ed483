-- ===== src/Nic/Smp.antt =====
-- network/nic.c on several processors: `mynic_start_xmit` and `mynic_interrupt`, one call or one
-- access to the ring at a time.
use char_driver_scull.Base.{ℕ, ◌+◌, ◌<◌, ◌≡◌, ◌≢◌, Bool, true, false, List, [], ◌∷◌, ◌++◌, length}
use char_driver_scull.Kernel.{Kernel, World, Run, Event, note, answered_number}
use char_driver_scull.Kernel.Interface.{Call}
use char_driver_scull.Nic.{Priv, Hardware, ring_size, has_bit, push, complete}
use char_driver_scull.Nic.Interrupt.{freed}
pub mod Exclusion
pub mod Position
pub mod Deadlock
pub mod Serial
pub mod Progress
mod Tests

-- Where a processor stands in `mynic_start_xmit`.
pub data Xmit : Type 0 where
  no_xmit : Xmit
  mapped : (skb : ℕ) → Xmit  -- before `spin_lock`
  locked : (skb : ℕ) → Xmit  -- before the two assignments
  queued : Xmit  -- before the write that starts the hardware
  kicked : Xmit  -- before `spin_unlock`

-- Where a processor stands in `mynic_interrupt`.
pub data Irq : Type 0 where
  no_irq : Irq
  read : (status : ℕ) → Irq  -- before the acknowledgement
  acked : (status : ℕ) → Irq  -- before the test of RX_INTR
  polled : (status : ℕ) → Irq  -- before the test of TX_INTR
  completing : Irq  -- the head of the loop, with the lock taken
  unlocked : Irq  -- before `netif_wake_queue`

-- `spin_lock` leaves interrupts enabled: the handler may run on top of a transmission.
pub record Cpu : Type 0 where
  pub xmit : Xmit
  pub irq : Irq

-- What the processors share; `is_locked` is the state of the lock, and `sent` are the buffers put
-- into the ring so far.
pub record Shared : Type 0 where
  pub world : World Priv
  pub is_locked : Bool
  pub sent : List ℕ

abbrev pub log_event : Event → Shared → Shared
log_event e s = record s { world = note e s.world }

abbrev pub log_answer : Kernel → Call → Shared → Shared
log_answer k c s = record s { world = answered_number k c s.world }

abbrev pub take_lock : Shared → Shared
take_lock s = record s { world = note (Event.ran Call.spin_lock) s.world; is_locked = true }

abbrev pub give_lock : Shared → Shared
give_lock s = record s { world = note (Event.ran Call.spin_unlock) s.world; is_locked = false }

-- The two assignments of a transmission.
abbrev pub put : ℕ → Shared → Shared
put skb s = record s {
  world = record s.world { vars = push skb s.world.vars };
  sent = s.sent ++ (skb ∷ []);
}

abbrev pub in_xmit : Xmit → Cpu
in_xmit x = record { xmit = x; irq = no_irq }

abbrev pub in_irq : Xmit → Irq → Cpu
in_irq x i = record { xmit = x; irq = i }

module _ (k : Kernel) (hw : Hardware) where
  -- One step of one processor. The hardware reports only packets that have been sent and not yet
  -- completed.
  pub data Move (s : Shared) : Cpu → Shared → Cpu → Type 0 where
    map_skb :
        {skb len : ℕ}
        → Move s
            (in_xmit no_xmit)
            (log_answer k (Call.dma_map_single skb len) s)
            (in_xmit (mapped skb))
    xmit_spin :
        {skb : ℕ} → s.is_locked ≡ true → Move s (in_xmit (mapped skb)) s (in_xmit (mapped skb))
    xmit_lock :
        {skb : ℕ}
        → s.is_locked ≡ false
        → Move s (in_xmit (mapped skb)) (take_lock s) (in_xmit (locked skb))
    put_skb : {skb : ℕ} → Move s (in_xmit (locked skb)) (put skb s) (in_xmit queued)
    kick :
        Move s
          (in_xmit queued)
          (log_event (Event.ran (Call.iowrite hw.kick_tx (s.world.vars.mmio + hw.tx_reg))) s)
          (in_xmit kicked)
    xmit_unlock : Move s (in_xmit kicked) (give_lock s) (in_xmit no_xmit)
    interrupt :
        {x : Xmit} {status : ℕ}
        → status ≡ k.number s.world.log (Call.ioread (s.world.vars.mmio + hw.intr_status_reg))
        → Move s
            (in_xmit x)
            (log_answer k (Call.ioread (s.world.vars.mmio + hw.intr_status_reg)) s)
            (in_irq x (read status))
    ack :
        {x : Xmit} {status : ℕ}
        → Move s
            (in_irq x (read status))
            (log_event (Event.ran (Call.iowrite status (s.world.vars.mmio + hw.intr_status_reg))) s)
            (in_irq x (acked status))
    schedule :
        {x : Xmit} {status : ℕ}
        → has_bit status hw.rx_intr ≡ true
        → Move s
            (in_irq x (acked status))
            (log_event (Event.ran (Call.napi_schedule s.world.vars.netdev)) s)
            (in_irq x (polled status))
    no_rx :
        {x : Xmit} {status : ℕ}
        → has_bit status hw.rx_intr ≡ false
        → Move s (in_irq x (acked status)) s (in_irq x (polled status))
    no_tx :
        {x : Xmit} {status : ℕ}
        → has_bit status hw.tx_intr ≡ false
        → Move s (in_irq x (polled status)) s (in_xmit x)
    irq_spin :
        {x : Xmit} {status : ℕ}
        → has_bit status hw.tx_intr ≡ true
        → s.is_locked ≡ true
        → Move s (in_irq x (polled status)) s (in_irq x (polled status))
    irq_lock :
        {x : Xmit} {status : ℕ}
        → has_bit status hw.tx_intr ≡ true
        → s.is_locked ≡ false
        → Move s (in_irq x (polled status)) (take_lock s) (in_irq x completing)
    complete_one :
        {x : Xmit} {w : World Priv} (handle : ℕ)
        → length (freed s.world.log) < length s.sent
        → complete k hw handle s.world ≡ Run.ok tt w
        → Move s (in_irq x completing) (record s { world = w }) (in_irq x completing)
    irq_unlock : {x : Xmit} → Move s (in_irq x completing) (give_lock s) (in_irq x unlocked)
    wake :
        {x : Xmit}
        → Move s
            (in_irq x unlocked)
            (log_event (Event.ran (Call.netif_wake_queue s.world.vars.netdev)) s)
            (in_xmit x)

  -- One of the processors moves.
  pub data Step (s : Shared) : List Cpu → Shared → List Cpu → Type 0 where
    step :
        {c c' : Cpu} {s' : Shared} (before after : List Cpu)
        → Move s c s' c'
        → Step s (before ++ (c ∷ after)) s' (before ++ (c' ∷ after))

  pub data Steps (s : Shared) (cpus : List Cpu) : Shared → List Cpu → Type 0 where
    stay : Steps s cpus s cpus
    onward :
        {s' s'' : Shared} {cpus' cpus'' : List Cpu}
        → Steps s cpus s' cpus'
        → Step s' cpus' s'' cpus''
        → Steps s cpus s'' cpus''

  -- A buffer that is put into the ring is not NULL, and a slot is free for it.
  abbrev pub HasRoom : {s s' : Shared} {c c' : Cpu} → Move s c s' c' → Type 0
  HasRoom {s} (put_skb {skb}) = (skb ≢ 0) × (length s.sent < ring_size + length (freed s.world.log))
  HasRoom _ = Unit

  abbrev pub StepHasRoom : {s s' : Shared} {cpus cpus' : List Cpu} → Step s cpus s' cpus' → Type 0
  StepHasRoom (step before after m) = HasRoom m

  -- In a whole run.
  abbrev pub AllHaveRoom :
      {s : Shared} {cpus : List Cpu} {s' : Shared} {cpus' : List Cpu}
      → Steps s cpus s' cpus'
      → Type 0
  AllHaveRoom stay = Unit
  AllHaveRoom (onward r m) = AllHaveRoom r × StepHasRoom m

-- Whether a transmission, or a handler, is between `spin_lock` and `spin_unlock`.
abbrev pub xmit_holds : Xmit → ℕ
xmit_holds no_xmit = 0
xmit_holds (mapped _) = 0
xmit_holds (locked _) = 1
xmit_holds queued = 1
xmit_holds kicked = 1

abbrev pub irq_holds : Irq → ℕ
irq_holds completing = 1
irq_holds _ = 0

-- How many transmissions and handlers are between `spin_lock` and `spin_unlock`.
abbrev pub holders : List Cpu → ℕ
holders [] = 0
holders (c ∷ cs) = xmit_holds c.xmit + irq_holds c.irq + holders cs
