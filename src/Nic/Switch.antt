-- ===== src/Nic/Switch.antt =====
-- What switches NAPI, the queue and the interrupts of the card in network/nic.c.
use char_driver_scull.Base.{
  ℕ, ◌+◌, ◌%◌, get_or, ltb, ◌≡◌, refl, ◌∙◌, Bool, true, false, List, [], ◌∷◌, arith, ◌==◌,
  if◌then◌else◌, inl, inr, Bool-cases,
}
use char_driver_scull.Kernel.{Kernel, Event, World, void, note, ◌>>◌}
use char_driver_scull.Kernel.Driver.{After, After-bind}
use char_driver_scull.Kernel.Interface.{Call}
use char_driver_scull.Nic.{
  Priv, Hardware, ring_size, mynic_open, mynic_stop, complete, complete_all, complete_tx, receive,
}
use char_driver_scull.Nic.Order.{napi_on, queue_on, hardware_on, Safe}

-- The events that switch one of the three; `reg` is the address of the control register.
abbrev pub switches : ℕ → Event → Bool
switches reg (Event.ran (Call.napi_enable dev)) = true
switches reg (Event.ran (Call.napi_disable dev)) = true
switches reg (Event.ran (Call.netif_start_queue dev)) = true
switches reg (Event.ran (Call.netif_stop_queue dev)) = true
switches reg (Event.ran (Call.netif_wake_queue dev)) = true
switches reg (Event.ran (Call.iowrite v r)) = r == reg
switches reg _ = false

abbrev Unchanged : ℕ → Event → List Event → Type 0
Unchanged reg e log =
    (napi_on (e ∷ log) ≡ napi_on log)
    × (queue_on (e ∷ log) ≡ queue_on log)
    × (hardware_on reg (e ∷ log) ≡ hardware_on reg log)

switches_lem :
    (reg : ℕ) (e : Event) (log : List Event) → switches reg e ≡ false → Unchanged reg e log
switches_lem reg (Event.ran (Call.napi_enable dev)) log h = absurd cc
switches_lem reg (Event.ran (Call.napi_disable dev)) log h = absurd cc
switches_lem reg (Event.ran (Call.netif_start_queue dev)) log h = absurd cc
switches_lem reg (Event.ran (Call.netif_stop_queue dev)) log h = absurd cc
switches_lem reg (Event.ran (Call.netif_wake_queue dev)) log h = absurd cc
switches_lem reg (Event.ran (Call.iowrite v r)) log h = (refl, refl, ground (arith, h))
switches_lem reg _ log h = (refl, refl, refl)

-- What is on while the device is up, and off while it is down, by a past in which the hardware has
-- only been on while NAPI and the queue were; the control register is at `reg`.
pub record OnOff (hw : Hardware) (reg : ℕ) (b : Bool) (w : World Priv) : Type 0 where
  pub safe : Safe reg w.log
  pub napi : napi_on w.log ≡ b
  pub hardware : hardware_on reg w.log ≡ b
  pub queue : (if b then queue_on w.log else true) ≡ true
  pub at : w.vars.mmio + hw.control_reg ≡ reg

module _ (hw : Hardware) (reg : ℕ) where
  -- The moment after an event is safe if the three are as they should be.
  pub noted-OnOff :
      (b : Bool) (e : Event) (w : World Priv)
      → napi_on (e ∷ w.log) ≡ b
      → hardware_on reg (e ∷ w.log) ≡ b
      → (if b then queue_on (e ∷ w.log) else true) ≡ true
      → OnOff hw reg b w
      → OnOff hw reg b (note e w)
  noted-OnOff true e w n h q o = record {
    safe = ((λ _. (n, q)), o.safe);
    napi = n;
    hardware = h;
    queue = q;
    at = o.at;
  }
  noted-OnOff false e w n h q o = record {
    safe = ((λ on. absurd cc), o.safe);
    napi = n;
    hardware = h;
    queue = q;
    at = o.at;
  }

  pub quiet-OnOff :
      (b : Bool) (e : Event) (w : World Priv)
      → switches reg e ≡ false
      → OnOff hw reg b w
      → OnOff hw reg b (note e w)
  quiet-OnOff b e w s o =
      let (n, q, h) = switches_lem reg e w.log s in
      noted-OnOff b e w (n ∙ o.napi) (h ∙ o.hardware) (rw q o.queue) o

  pub vars-OnOff :
      (b : Bool) (w : World Priv) (p : Priv)
      → p.mmio ≡ w.vars.mmio
      → OnOff hw reg b w
      → OnOff hw reg b (record w { vars = p })
  vars-OnOff b w p e o = record {
    safe = o.safe;
    napi = o.napi;
    hardware = o.hardware;
    queue = o.queue;
    at = rw e o.at;
  }

module _ (k : Kernel) (hw : Hardware) (reg : ℕ) where
  pub mynic_open-OnOff :
      (w : World Priv)
      → (hw.enable_irq_rx == 0) ≡ false
      → OnOff hw reg false w
      → After (λ _ w'. OnOff hw reg true w') (mynic_open k hw w)
  unfolding mynic_open
  mynic_open-OnOff w nz o = record {
    safe = (
      (λ _. (refl, refl)),
      ((λ e. absurd (cc (o.hardware))), ((λ e. absurd (cc (o.hardware))), o.safe)),
    );
    napi = refl;
    hardware = ground (arith, o.at, nz);
    queue = refl;
    at = o.at;
  }

  pub mynic_stop-OnOff :
      (w : World Priv)
      → OnOff hw reg true w
      → After (λ _ w'. OnOff hw reg false w') (mynic_stop k hw w)
  unfolding mynic_stop
  mynic_stop-OnOff w o =
      let off : hardware_on reg (Event.ran (Call.iowrite 0 (w.vars.mmio + hw.control_reg)) ∷ w.log)
          ≡ false =
        ground (arith, o.at) in
      record {
        safe = (
          (λ e. absurd (cc (off))),
          ((λ e. absurd (cc (off))), ((λ e. absurd (cc (off))), o.safe)),
        );
        napi = refl;
        hardware = off;
        queue = refl;
        at = o.at;
      }

  complete-OnOff :
      (b : Bool) (handle : ℕ) (w : World Priv)
      → OnOff hw reg b w
      → After (λ _ w'. OnOff hw reg b w') (complete k hw handle w)
  unfolding complete
  complete-OnOff b handle w o =
      let skb = get_or w.vars.tx_skbuff w.vars.tx_tail 0 in
      let p = record w.vars { tx_tail = (w.vars.tx_tail + 1) % ring_size } in
      elim (Bool-cases (skb == 0)) [
        | inl z ↦ rw z (vars-OnOff hw reg b w p refl o)
        | inr nz ↦ rw nz (
            vars-OnOff hw reg b _ _ refl (
              quiet-OnOff hw reg b (Event.ran (Call.dev_kfree_skb skb)) _ refl (
                quiet-OnOff hw reg b _ _ refl (
                  quiet-OnOff hw reg b
                    (Event.gave (Call.skb_len skb) (k.number w.log (Call.skb_len skb))) w refl o))))
      ]

  complete_all-OnOff :
      (b : Bool) (handles : List ℕ) (w : World Priv)
      → OnOff hw reg b w
      → After (λ _ w'. OnOff hw reg b w') (complete_all k hw handles w)
  unfolding complete_all
  complete_all-OnOff b [] w o = o
  complete_all-OnOff b (h ∷ hs) w o =
      After-bind _ _ w (complete k hw h) (λ _. complete_all k hw hs) (complete-OnOff b h w o)
        (λ _. complete_all-OnOff b hs)

  woken-OnOff :
      (b : Bool) (dev : ℕ) (w : World Priv)
      → OnOff hw reg b w
      → OnOff hw reg b (note (Event.ran (Call.netif_wake_queue dev)) w)
  woken-OnOff true dev w o = noted-OnOff hw reg true _ w o.napi o.hardware refl o
  woken-OnOff false dev w o = noted-OnOff hw reg false _ w o.napi o.hardware refl o

  pub complete_tx-OnOff :
      (b : Bool) (dev : ℕ) (handles : List ℕ) (w : World Priv)
      → OnOff hw reg b w
      → After (λ _ w'. OnOff hw reg b w') (complete_tx k hw dev handles w)
  unfolding complete_tx
  complete_tx-OnOff b dev handles w o =
      let w' = note (Event.ran Call.spin_lock) w in
      After-bind (λ v. OnOff hw reg b v) _ w' (complete_all k hw handles)
        (λ _. void Call.spin_unlock >> void (Call.netif_wake_queue dev))
        (complete_all-OnOff b handles w' (quiet-OnOff hw reg b (Event.ran Call.spin_lock) w refl o))
        (λ _ v o. woken-OnOff b dev _ (quiet-OnOff hw reg b (Event.ran Call.spin_unlock) v refl o))

  pub receive-OnOff :
      (b : Bool) (budget n : ℕ) (lens : List ℕ) (w : World Priv)
      → OnOff hw reg b w
      → After (λ _ w'. OnOff hw reg b w') (receive k hw budget n lens w)
  unfolding receive
  receive-OnOff b budget n [] w o = o
  receive-OnOff b budget n (len ∷ lens) w o =
      let c = Call.netdev_alloc_skb w.vars.netdev len in
      let skb = k.number w.log c in
      let a = quiet-OnOff hw reg b (Event.gave c skb) w refl o in
      elim (Bool-cases (ltb n budget)) [
        | inr done ↦ rw done o
        | inl more ↦ rw more (elim (Bool-cases (skb == 0)) [
          | inl z ↦ rw z a
          | inr nz ↦ rw nz (
              receive-OnOff b budget (n + 1) lens _ (
                quiet-OnOff hw reg b (Event.ran (Call.netif_receive_skb skb)) _ refl
                  (quiet-OnOff hw reg b (Event.ran (Call.eth_type_trans skb)) _ refl a)))
        ])
      ]
