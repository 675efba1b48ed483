-- ===== src/Nic/Drain.antt =====
-- The interrupt of network/nic.c that completes all packets in flight.
use mathlib.Core.List.{reverse, append-nil}
use char_driver_scull.Base.{ℕ, ◌+◌, ◌≡◌, sym, ap, ◌∙◌, true, some, List, [], ◌++◌, arith, length}
use char_driver_scull.Kernel.{Kernel, World, Run}
use char_driver_scull.Kernel.Interface.{Call}
use char_driver_scull.Kernel.Ledger.{Held, ledger}
use char_driver_scull.Nic.{Priv, Hardware, IrqReturn, has_bit, mynic_interrupt}
use char_driver_scull.Nic.Ring.{IsRing}
use char_driver_scull.Nic.Interrupt.{freed, Interrupted, mynic_interrupt-Interrupted}
use char_driver_scull.Nic.Fifo.{Reaches, length-in_flight, reverse-reverse_aux, Reaches-InOrder}

-- All that was sent has been freed, in order, and nothing is in flight.
abbrev pub Drained : List ℕ → Run Priv IrqReturn → Type 0
Drained sent Run.fault = ⊥
Drained sent (Run.ok r w) =
    (r ≡ IrqReturn.irq_handled) × (sent ≡ reverse (freed w.log)) × IsRing w.vars []

module _ (k : Kernel) (hw : Hardware) (rs : Held) where
  drain-lem :
      (handles sent q : List ℕ) (w : World Priv) (run : Run Priv IrqReturn)
      → sent ≡ reverse (freed w.log) ++ q
      → has_bit (k.number w.log (Call.ioread (w.vars.mmio + hw.intr_status_reg))) hw.tx_intr ≡ true
      → Interrupted hw (k.number w.log (Call.ioread (w.vars.mmio + hw.intr_status_reg))) w q [] run
      → Drained sent run
  drain-lem handles sent q w Run.fault e b i = i
  drain-lem handles sent q w (Run.ok r w') e b i =
      let (ring, same, _, handled) = rw b at i in
      (handled, e ∙ sym (reverse-reverse_aux q (freed w.log)) ∙ ap reverse (sym same), ring)

  -- From an empty ring.
  pub Reaches-Drained :
      (start w : World Priv) (sent handles : List ℕ)
      → IsRing start.vars []
      → freed start.log ≡ []
      → ledger start.log ≡ some rs
      → Reaches k hw start w sent
      → length handles + length (freed w.log) ≡ length sent
      → has_bit (k.number w.log (Call.ioread (w.vars.mmio + hw.intr_status_reg))) hw.tx_intr ≡ true
      → Drained sent (mynic_interrupt k hw handles w)
  Reaches-Drained start w sent handles ring none_freed held reach n b =
      let i = Reaches-InOrder k hw rs start w sent ring none_freed held reach in
      let whole = append-nil i.in_flight in
      let same : length handles ≡ length i.in_flight =
        omega (arith, length-in_flight k hw rs w sent i) in
      drain-lem handles sent i.in_flight w (mynic_interrupt k hw handles w) i.order b
        (mynic_interrupt-Interrupted k hw handles i.in_flight [] w rs same (rw whole i.ring) i.held)
