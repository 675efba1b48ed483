-- ===== src/Nic/Smp/Tests.antt =====
-- Two processors run network/nic.c.
use char_driver_scull.Base.{ℕ, ◌≡◌, zero, suc, ap, refl, [], ◌∷◌, arith}
use char_driver_scull.Kernel.{Event}
use char_driver_scull.Kernel.Interface.{Call}
use char_driver_scull.Kernel.Driver.{After}
use char_driver_scull.Kernel.Ledger.{ledger}
use char_driver_scull.Nic.{mynic_start_xmit, mynic_interrupt}
use char_driver_scull.Nic.Smp.{
  Xmit, Irq, Cpu, Shared, in_xmit, in_irq, log_answer, take_lock, Move, Step, Steps, AllHaveRoom,
  log_event,
}
use char_driver_scull.Nic.Smp.Exclusion.{cpu_holds, Exclusive, Steps-Exclusive}
use char_driver_scull.Nic.Smp.Position.{At}
use char_driver_scull.Nic.Smp.Deadlock.{Stuck, interrupt-Stuck}
use char_driver_scull.Nic.Smp.Progress.{NoTx, CanFree, Steps-CanFree}
use char_driver_scull.Nic.Smp.Serial.{go, unlocked_at, Goes, nic_operations-Goes}
use char_driver_scull.Nic.Tests.{hardware, empty, empty-IsRing, sent}
use char_driver_scull.Tests.{kernel}

abbrev idle : Cpu
idle = in_xmit Xmit.no_xmit

abbrev initial : Shared
initial = unlocked_at empty []

initial-Exclusive : Exclusive [] initial (idle ∷ idle ∷ [])
unfolding ledger
initial-Exclusive = record {
  one = refl;
  in_order = record { in_flight = []; order = refl; ring = empty-IsRing; held = refl };
}

-- The first processor has the lock, to send the buffer at 3; then it takes an interrupt with the
-- status 5, whose transmit bit is set.
abbrev holding : Shared
holding = take_lock (log_answer kernel (Call.dma_map_single 3 60) initial)

abbrev interrupted : Shared
interrupted = log_event (Event.ran (Call.iowrite 5 13)) (log_answer kernel (Call.ioread 13) holding)

abbrev waiting : Cpu
waiting = in_irq (Xmit.locked 3) (Irq.polled 5)

-- A move of the first of the two processors.
abbrev move :
    {s s' : Shared} {c c' : Cpu}
    → Steps kernel hardware initial (idle ∷ idle ∷ []) s (c ∷ idle ∷ [])
    → Move kernel hardware s c s' c'
    → Steps kernel hardware initial (idle ∷ idle ∷ []) s' (c' ∷ idle ∷ [])
move g m = Steps.onward g (Step.step [] (idle ∷ []) m)

abbrev to_interrupted :
    Steps kernel hardware initial (idle ∷ idle ∷ []) interrupted (waiting ∷ idle ∷ [])
to_interrupted =
    let first = move Steps.stay (Move.map_skb {skb = 3} {len = 60}) in
    let took = move first (Move.xmit_lock refl) in
    let irq = move took (Move.interrupt {x = Xmit.locked 3} refl) in
    move (move irq Move.ack) (Move.no_rx refl)

to_interrupted-room : AllHaveRoom kernel hardware to_interrupted
to_interrupted-room = (((((tt, tt), tt), tt), tt), tt)

Steps-Exclusive_example : Exclusive [] interrupted (waiting ∷ idle ∷ [])
Steps-Exclusive_example =
    Steps-Exclusive kernel hardware [] {s = initial} {cpus = idle ∷ idle ∷ []} {s' = interrupted}
      {cpus' = waiting ∷ idle ∷ []} initial-Exclusive to_interrupted to_interrupted-room

-- The second processor takes an interrupt.
abbrev second : Shared
second = log_answer kernel (Call.ioread 13) interrupted

-- The lock is taken to send the buffer at 3, and there is no interrupt.
abbrev to_holding :
    Steps kernel hardware initial (idle ∷ idle ∷ []) holding (in_xmit (Xmit.locked 3) ∷ idle ∷ [])
to_holding =
    let first = move Steps.stay (Move.map_skb {skb = 3} {len = 60}) in
    move first (Move.xmit_lock refl)

to_holding-room : AllHaveRoom kernel hardware to_holding
to_holding-room = ((tt, tt), tt)

interrupt-Stuck_example :
    Steps kernel hardware holding
      (in_xmit (Xmit.locked 3) ∷ idle ∷ [])
      interrupted
      (waiting ∷ idle ∷ [])
    × Stuck interrupted 0 waiting second (waiting ∷ in_irq Xmit.no_xmit (Irq.read 5) ∷ [])
interrupt-Stuck_example =
    interrupt-Stuck kernel hardware [] [] (idle ∷ []) (Xmit.locked 3) holding second
      (waiting ∷ in_irq Xmit.no_xmit (Irq.read 5) ∷ []) refl refl
      (Steps-Exclusive kernel hardware [] initial-Exclusive to_holding to_holding-room)
      (go kernel hardware (waiting ∷ []) [] Steps.stay (Move.interrupt {x = Xmit.no_xmit} refl))

nic_operations-Goes_example :
    After
      (λ _ v.
        Goes kernel hardware []
          (idle ∷ [])
          (unlocked_at sent (3 ∷ []))
          idle
          (unlocked_at v (3 ∷ 7 ∷ []))
          idle)
      (mynic_start_xmit kernel hardware 7 60 sent)
    × After
        (λ _ v.
          Goes kernel hardware []
            (idle ∷ [])
            (unlocked_at sent (3 ∷ []))
            idle
            (unlocked_at v (3 ∷ []))
            idle)
        (mynic_interrupt kernel hardware (8 ∷ []) sent)
nic_operations-Goes_example =
    nic_operations-Goes kernel hardware [] (idle ∷ []) 7 60 (8 ∷ []) Xmit.no_xmit sent (3 ∷ [])
      (omega arith)

holding-Ready :
    (n : ℕ) (c : Cpu)
    → At (in_xmit (Xmit.locked 3) ∷ idle ∷ []) n c
    → cpu_holds c ≡ 1
    → NoTx hardware c.irq
holding-Ready zero c a h = rw (← a) tt
holding-Ready (suc zero) c a h = absurd (omega (arith, ap cpu_holds a))
holding-Ready (suc (suc n)) c a h = absurd a

Steps-CanFree_example : CanFree kernel hardware holding (in_xmit (Xmit.locked 3) ∷ idle ∷ [])
Steps-CanFree_example =
    Steps-CanFree kernel hardware [] holding (in_xmit (Xmit.locked 3) ∷ idle ∷ [])
      (Steps-Exclusive kernel hardware [] initial-Exclusive to_holding to_holding-room) refl
      holding-Ready
