-- ===== src/Nic/Quiet.antt =====
-- The functions of network/nic.c that leave the transmit ring alone.
use char_driver_scull.Base.{ℕ, ◌+◌, List, [], ◌∷◌, some, ◌≡◌, refl, arith}
use char_driver_scull.Kernel.{Kernel, Event, World, Run, answered_number, note}
use char_driver_scull.Kernel.Interface.{Call}
use char_driver_scull.Kernel.Ledger.{Held, ledger}
use char_driver_scull.Nic.{Priv, Hardware, mynic_open, mynic_stop, receive, mynic_poll}
use char_driver_scull.Nic.Interrupt.{freed}

-- The driver's state is as it was, no buffer is freed, and nothing acquired or released.
abbrev pub Quiet : {A : Type 0} → World Priv → Run Priv A → Type 0
Quiet w Run.fault = ⊥
Quiet w (Run.ok a w') =
    (w'.vars ≡ w.vars) × (freed w'.log ≡ freed w.log) × (ledger w'.log ≡ ledger w.log)

module _ (k : Kernel) (hw : Hardware) where
  receive-Quiet :
      (budget n : ℕ) (lens : List ℕ) (w : World Priv) (rs : Held)
      → ledger w.log ≡ some rs
      → Quiet w (receive k hw budget n lens w)
  unfolding receive ledger
  receive-Quiet budget n [] w rs h = (refl, refl, refl)
  receive-Quiet budget n (len ∷ lens) w rs h =
      let c = Call.netdev_alloc_skb w.vars.netdev len in
      let s = k.number w.log c in
      let a =
        note (Event.ran (Call.netif_receive_skb s))
          (note (Event.ran (Call.eth_type_trans s)) (answered_number k c w)) in
      ground (arith, receive-Quiet budget (n + 1) lens a rs)

  pub mynic_poll-Quiet :
      (budget : ℕ) (lens : List ℕ) (w : World Priv) (rs : Held)
      → ledger w.log ≡ some rs
      → Quiet w (mynic_poll k hw budget lens w)
  unfolding mynic_poll ledger
  mynic_poll-Quiet budget lens w rs h = ground (arith, receive-Quiet budget 0 lens w rs)

  pub mynic_open-Quiet :
      (w : World Priv) (rs : Held) → ledger w.log ≡ some rs → Quiet w (mynic_open k hw w)
  unfolding mynic_open ledger
  mynic_open-Quiet w rs h = ground arith

  pub mynic_stop-Quiet :
      (w : World Priv) (rs : Held) → ledger w.log ≡ some rs → Quiet w (mynic_stop k hw w)
  unfolding mynic_stop ledger
  mynic_stop-Quiet w rs h = ground arith
