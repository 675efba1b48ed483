-- ===== src/Nic/Poll.antt =====
-- The NAPI poll function of network/nic.c and its budget.
use char_driver_scull.Base.{ℕ, suc, ◌+◌, ◌≤◌, ◌≡◌, List, [], ◌∷◌, arith, ltb, if◌then◌else◌}
use char_driver_scull.Kernel.{Kernel, Event, World, Run, answered_number, note}
use char_driver_scull.Kernel.Interface.{Call}
use char_driver_scull.Nic.{Priv, Hardware, receive, mynic_poll}

-- How many buffers have been handed to the network stack.
abbrev pub received : List Event → ℕ
received [] = 0
received (Event.ran (Call.netif_receive_skb skb) ∷ log) = suc (received log)
received (_ ∷ log) = received log

-- How often polling has been ended.
abbrev pub completions : List Event → ℕ
completions [] = 0
completions (Event.ran (Call.napi_complete_done dev n) ∷ log) = suc (completions log)
completions (_ ∷ log) = completions log

abbrev Received : ℕ → ℕ → World Priv → Run Priv ℕ → Type 0
Received budget n w Run.fault = ⊥
Received budget n w (Run.ok r w') =
    (n ≤ r)
    × (r ≤ budget)
    × (received w'.log + n ≡ received w.log + r)
    × (completions w'.log ≡ completions w.log)

-- The result is the number of packets passed on and within the budget, and polling is ended exactly
-- if the budget was not used up.
abbrev pub Polled : ℕ → World Priv → Run Priv ℕ → Type 0
Polled budget w Run.fault = ⊥
Polled budget w (Run.ok r w') =
    (r ≤ budget)
    × (received w'.log ≡ received w.log + r)
    × (completions w'.log ≡ completions w.log + (if ltb r budget then 1 else 0))

module _ (k : Kernel) (hw : Hardware) where
  receive-Received :
      (budget n : ℕ) (lens : List ℕ) (w : World Priv)
      → n ≤ budget
      → Received budget n w (receive k hw budget n lens w)
  unfolding receive
  receive-Received budget n [] w h = omega arith
  receive-Received budget n (len ∷ lens) w h =
      let c = Call.netdev_alloc_skb w.vars.netdev len in
      let s = k.number w.log c in
      let a =
        note (Event.ran (Call.netif_receive_skb s))
          (note (Event.ran (Call.eth_type_trans s)) (answered_number k c w)) in
      ground (arith, receive-Received budget (n + 1) lens a)

  -- `mynic_poll` does not fault, for any packets and any budget: it returns how many packets it
  -- has given to the network stack, which is at most the budget, and it ends polling exactly
  -- when it has taken fewer than the budget.
  pub mynic_poll-Polled :
      (budget : ℕ) (lens : List ℕ) (w : World Priv)
      → Polled budget w (mynic_poll k hw budget lens w)
  unfolding mynic_poll
  mynic_poll-Polled budget lens w = ground (arith, receive-Received budget 0 lens w)
