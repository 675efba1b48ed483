-- ===== src/Nic/Session.antt =====
-- A network interface of network/nic.c, up and down, with all that happens meanwhile.
use char_driver_scull.Base.{
  ℕ, ◌+◌, ◌≡◌, refl, Bool, true, false, List, ℤ, ◌==◌, ltb, if◌then◌else◌, inl, inr, Bool-cases,
  arith,
}
use char_driver_scull.Kernel.{Kernel, Event, World, Run, pure, void, note, answered_number, ◌>>◌}
use char_driver_scull.Kernel.Driver.{After, After-bind}
use char_driver_scull.Kernel.Interface.{Call}
use char_driver_scull.Nic.{
  Priv, Hardware, NetdevTx, IrqReturn, has_bit, push, mynic_open, mynic_stop, mynic_start_xmit,
  complete_tx, mynic_interrupt, receive, mynic_poll,
}
use char_driver_scull.Nic.Switch.{
  OnOff, noted-OnOff, quiet-OnOff, vars-OnOff, mynic_open-OnOff, mynic_stop-OnOff,
  complete_tx-OnOff, receive-OnOff,
}

-- What the theorems need of the card: the values that enable interrupts are not zero, and the
-- registers are apart.
pub record IsCard (hw : Hardware) : Type 0 where
  pub enables : (hw.enable_irq_rx == 0) ≡ false
  pub enables_rx : (hw.enable_rx_irq == 0) ≡ false
  pub tx_apart : (hw.tx_reg == hw.control_reg) ≡ false
  pub status_apart : (hw.intr_status_reg == hw.control_reg) ≡ false

module _ (k : Kernel) (hw : Hardware) where
  -- The network core opens an interface that is down and stops one that is up, and transmits and
  -- polls while it is up; interrupts come at any time, since the line is requested by the probe.
  pub data Session (begin : World Priv) : Bool → World Priv → Type 0 where
    start : Session begin false begin
    opened :
        {w w' : World Priv} (err : ℤ)
        → Session begin false w
        → mynic_open k hw w ≡ Run.ok err w'
        → Session begin true w'
    stopped :
        {w w' : World Priv} (err : ℤ)
        → Session begin true w
        → mynic_stop k hw w ≡ Run.ok err w'
        → Session begin false w'
    sent :
        {w w' : World Priv} (skb len : ℕ) (r : NetdevTx)
        → Session begin true w
        → mynic_start_xmit k hw skb len w ≡ Run.ok r w'
        → Session begin true w'
    polled :
        {w w' : World Priv} (budget : ℕ) (lens : List ℕ) (r : ℕ)
        → Session begin true w
        → mynic_poll k hw budget lens w ≡ Run.ok r w'
        → Session begin true w'
    interrupted :
        {w w' : World Priv} {b : Bool} (handles : List ℕ) (r : IrqReturn)
        → Session begin b w
        → mynic_interrupt k hw handles w ≡ Run.ok r w'
        → Session begin b w'

  module _ (card : IsCard hw) (reg : ℕ) where
    mynic_start_xmit-OnOff :
        (b : Bool) (skb len : ℕ) (w : World Priv)
        → OnOff hw reg b w
        → After (λ _ w'. OnOff hw reg b w') (mynic_start_xmit k hw skb len w)
    unfolding mynic_start_xmit
    mynic_start_xmit-OnOff b skb len w o =
        let m = answered_number k (Call.dma_map_single skb len) w in
        let l = note (Event.ran Call.spin_lock) m in
        let apart : (w.vars.mmio + hw.tx_reg == reg) ≡ false =
          ground (arith, o.at, card.tx_apart) in
        quiet-OnOff hw reg b (Event.ran Call.spin_unlock) _ refl (
          quiet-OnOff hw reg b (Event.ran (Call.iowrite hw.kick_tx (w.vars.mmio + hw.tx_reg))) _
            apart
            (vars-OnOff hw reg b l (push skb w.vars) refl (
              quiet-OnOff hw reg b (Event.ran Call.spin_lock) m refl (
                quiet-OnOff hw reg b
                  (Event.gave (Call.dma_map_single skb len)
                    (k.number w.log (Call.dma_map_single skb len)))
                  w refl o))))

    mynic_poll-OnOff :
        (budget : ℕ) (lens : List ℕ) (w : World Priv)
        → OnOff hw reg true w
        → After (λ _ w'. OnOff hw reg true w') (mynic_poll k hw budget lens w)
    unfolding mynic_poll
    mynic_poll-OnOff budget lens w o =
        let again = Event.ran (Call.iowrite hw.enable_rx_irq (w.vars.mmio + hw.control_reg)) in
        After-bind (λ v. OnOff hw reg true v) _ w (receive k hw budget 0 lens)
          (λ rx_done.
            (if ltb rx_done budget
              then (void (Call.napi_complete_done w.vars.netdev rx_done)
                  >> void (Call.iowrite hw.enable_rx_irq (w.vars.mmio + hw.control_reg)))
              else pure tt)
            >> pure rx_done)
          (receive-OnOff k hw reg true budget 0 lens w o)
          λ rx_done v p.
            let ended = Event.ran (Call.napi_complete_done w.vars.netdev rx_done) in
            elim (Bool-cases (ltb rx_done budget)) [
              | inr used ↦ rw used p
              | inl less ↦ rw less (
                  noted-OnOff hw reg true again (note ended v) p.napi
                    (ground (arith, o.at, card.enables_rx)) p.queue
                    (quiet-OnOff hw reg true ended v refl p))
            ]

    -- From the test of TX_INTR on.
    tested-OnOff :
        (b : Bool) (handles : List ℕ) (dev status : ℕ) (w : World Priv)
        → OnOff hw reg b w
        → After
            (λ _ w'. OnOff hw reg b w')
            (((if has_bit status hw.tx_intr then complete_tx k hw dev handles else pure tt)
                >> pure IrqReturn.irq_handled)
              w)
    tested-OnOff b handles dev status w o = elim (Bool-cases (has_bit status hw.tx_intr)) [
      | inr none ↦ rw none o
      | inl tx ↦ rw tx (
          After-bind _ _ w (complete_tx k hw dev handles) (λ _. pure IrqReturn.irq_handled)
            (complete_tx-OnOff k hw reg b dev handles w o) (λ _ v p. p))
    ]

    mynic_interrupt-OnOff :
        (b : Bool) (handles : List ℕ) (w : World Priv)
        → OnOff hw reg b w
        → After (λ _ w'. OnOff hw reg b w') (mynic_interrupt k hw handles w)
    unfolding mynic_interrupt
    mynic_interrupt-OnOff b handles w o =
        let c = Call.ioread (w.vars.mmio + hw.intr_status_reg) in
        let status = k.number w.log c in
        let ack = Event.ran (Call.iowrite status (w.vars.mmio + hw.intr_status_reg)) in
        let napi = Event.ran (Call.napi_schedule w.vars.netdev) in
        let a = note ack (answered_number k c w) in
        let apart : (w.vars.mmio + hw.intr_status_reg == reg) ≡ false =
          ground (arith, o.at, card.status_apart) in
        let p =
          quiet-OnOff hw reg b ack (answered_number k c w) apart
            (quiet-OnOff hw reg b (Event.gave c status) w refl o) in
        elim (Bool-cases (has_bit status hw.rx_intr)) [
          | inr none ↦ rw none (tested-OnOff b handles w.vars.netdev status a p)
          | inl rx ↦ rw rx (
              tested-OnOff b handles w.vars.netdev status (note napi a)
                (quiet-OnOff hw reg b napi a refl p))
        ]

    -- In every session of an interface, opened and stopped in turn, with transmissions and polls
    -- while it is up and interrupts at any time, from a state in which it is down: at every moment
    -- of it the card can interrupt only while NAPI is enabled and the queue is started; while the
    -- interface is up, all three are on, and while it is down, NAPI and the card's interrupts are
    -- off. The enabling values are not zero and the card's registers are apart.
    pub Session-OnOff :
        (begin : World Priv) (b : Bool) (w : World Priv)
        → OnOff hw reg false begin
        → Session begin b w
        → OnOff hw reg b w
    Session-OnOff begin b w o Session.start = o
    Session-OnOff begin b w o (Session.opened {w = v} err s run) =
        rw run at (mynic_open-OnOff k hw reg v card.enables (Session-OnOff begin false v o s))
    Session-OnOff begin b w o (Session.stopped {w = v} err s run) =
        rw run at (mynic_stop-OnOff k hw reg v (Session-OnOff begin true v o s))
    Session-OnOff begin b w o (Session.sent {w = v} skb len r s run) =
        rw run at (mynic_start_xmit-OnOff true skb len v (Session-OnOff begin true v o s))
    Session-OnOff begin b w o (Session.polled {w = v} budget lens r s run) =
        rw run at (mynic_poll-OnOff budget lens v (Session-OnOff begin true v o s))
    Session-OnOff begin b w o (Session.interrupted {w = v} handles r s run) =
        rw run at (mynic_interrupt-OnOff b handles v (Session-OnOff begin b v o s))
