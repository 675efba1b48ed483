-- ===== src/Nic/Whole.antt =====
-- A device of network/nic.c from its probe: the ring that the probe leaves, and what follows.
use char_driver_scull.Base.{
  ℕ, ℤ, pos, ◌+◌, ◌≡◌, refl, ◌∙◌, true, some, List, [], arith, nonzero, if◌then◌else◌, length,
  replicate,
}
use char_driver_scull.Kernel.{Kernel, World, Run}
use char_driver_scull.Kernel.Interface.{Call}
use char_driver_scull.Kernel.Ledger.{Held, ledger}
use char_driver_scull.Kernel.Pci.{PciDev}
use char_driver_scull.Nic.{Priv, Hardware, ring_size, has_bit, mynic_probe, mynic_interrupt}
use char_driver_scull.Nic.Resources.{bound, mynic_probe-Atomic}
use char_driver_scull.Nic.Ring.{IsRing}
use char_driver_scull.Nic.Interrupt.{freed}
use char_driver_scull.Nic.Fifo.{Reaches}
use char_driver_scull.Nic.Drain.{Drained, Reaches-Drained}

pub cleared-IsRing :
    (p : Priv) → p.tx_skbuff ≡ replicate ring_size 0 → p.tx_head ≡ 0 → p.tx_tail ≡ 0 → IsRing p []
cleared-IsRing p s h t = record {
  size = rw s refl;
  tail_in = omega arith;
  room = omega arith;
  head_at = ground arith;
  content = refl;
  skbs = tt;
}

-- The fields that an empty ring has.
abbrev Empty : Priv → Type 0
Empty p = (p.tx_skbuff ≡ replicate ring_size 0) × (p.tx_head ≡ 0) × (p.tx_tail ≡ 0)

abbrev Prepared : World Priv → Run Priv ℤ → Type 0
Prepared w Run.fault = ⊥
Prepared w (Run.ok err v) =
    if nonzero err then Unit {0} else (Empty v.vars × (freed v.log ≡ freed w.log))

module _ (k : Kernel) (hw : Hardware) (pdev : PciDev) where
  mynic_probe-Prepared : (w : World Priv) → Prepared w (mynic_probe k pdev w)
  unfolding mynic_probe
  mynic_probe-Prepared w = ground arith

  -- From a probe that returns 0, before which no buffer was freed, in every state that any sequence
  -- of transmissions, interrupts, polls, openings and stops reaches, in which a buffer is sent only
  -- while a slot is free and the hardware reports only packets that were sent: when the hardware
  -- then reports all packets that have been sent and not completed, with the transmit bit in the
  -- status that is read, the interrupt handler does not fault, and afterwards every buffer sent has
  -- been freed, first sent first freed, and none is in flight.
  pub mynic_probe-Drained :
      (begin v w : World Priv) (rs : Held) (sent handles : List ℕ)
      → freed begin.log ≡ []
      → ledger begin.log ≡ some rs
      → mynic_probe k pdev begin ≡ Run.ok (pos 0) v
      → Reaches k hw v w sent
      → length handles + length (freed w.log) ≡ length sent
      → has_bit (k.number w.log (Call.ioread (w.vars.mmio + hw.intr_status_reg))) hw.tx_intr ≡ true
      → Drained sent (mynic_interrupt k hw handles w)
  mynic_probe-Drained begin v w rs sent handles unfreed held run reach n b =
      let ((s, h, t), same) = rw run at (mynic_probe-Prepared begin) in
      let bound_by = rw run at (mynic_probe-Atomic k pdev begin rs held) in
      Reaches-Drained k hw (bound pdev v.vars rs) v w sent handles (cleared-IsRing v.vars s h t)
        (same ∙ unfreed) bound_by reach n b
