-- ===== src/Loopback/Session.antt =====
-- The module of network/simple_loopback.c from its initialisation to its exit.
use mathlib.Core.Path.{subst}
use char_driver_scull.Base.{
  ◌+◌, ◌%◌, ◌^◌, ◌∙◌, ap, false, ℕ, ℤ, ◌≡◌, refl, some, List, [], ◌∷◌, arith, ◌==◌, if◌then◌else◌,
  nonzero, Bool-cases, inl, inr,
}
use char_driver_scull.Kernel.{
  answered_number, Kernel, Event, World, Run, M, pure, note, ◌>>=◌, ◌>>◌,
}
use char_driver_scull.Kernel.Driver.{After, After-bind}
use char_driver_scull.Kernel.Interface.{Call}
use char_driver_scull.Kernel.Ledger.{Resource, Held, ledger}
use char_driver_scull.Kernel.NetDevice.{NetOp}
use char_driver_scull.Loopback.{
  Vars, myloop_ops, new_device, myloop_init, myloop_exit, myloop_open, myloop_stop, myloop_xmit,
}
use char_driver_scull.Loopback.Resources.{bound}
use char_driver_scull.Loopback.Stats.{Counted, sends, delivered, first_read, second_read, add_mod}

module _ (k : Kernel) where
  -- A call through the table of the module's network device.
  abbrev pub operate : NetOp → M Vars (Unit {0})
  operate NetOp.up w = (do _ ← (myloop_ops k w.vars.myloop_dev).ndo_open; pure tt) w
  operate NetOp.down w = (do _ ← (myloop_ops k w.vars.myloop_dev).ndo_stop; pure tt) w
  operate (NetOp.send skb len) w =
      (do _ ← (myloop_ops k w.vars.myloop_dev).ndo_start_xmit skb len; pure tt) w

  abbrev pub operate_all : List NetOp → M Vars (Unit {0})
  operate_all [] = pure tt
  operate_all (op ∷ ops) = operate op >> operate_all ops

  abbrev pub finish : List NetOp → ℤ → M Vars ℤ
  finish ops ret = if nonzero ret then pure ret else do operate_all ops; myloop_exit k; pure ret

  -- The module is initialised, used, and removed if the initialisation has succeeded.
  abbrev pub session : List NetOp → M Vars ℤ
  session ops = do ret ← myloop_init k; finish ops ret

-- The buffers delivered after an operation, the latest first.
abbrev pub arrival : NetOp → List ℕ → List ℕ
arrival NetOp.up ds = ds
arrival NetOp.down ds = ds
arrival (NetOp.send skb len) ds = skb ∷ ds

-- All that are sent, in order.
abbrev pub arrivals : List NetOp → List ℕ → List ℕ
arrivals [] ds = ds
arrivals (op ∷ ops) ds = arrivals ops (arrival op ds)

-- The module is loaded, `ds` have been delivered, and `n` buffers are counted.
abbrev Up : List Event → Held → List ℕ → ℕ → World Vars → Type 0
Up begin rs ds n w =
    (ledger w.log ≡ some (bound w.vars rs))
    × (delivered w.log ≡ ds)
    × Counted begin w.log n w.vars.stats

-- The end of a session: `begin` is the world at its start.
abbrev pub Over : Held → List NetOp → World Vars → ℤ → World Vars → Type 0
Over rs ops begin ret w =
    if nonzero ret
    then ledger w.log ≡ some (Resource.netdev w.vars.myloop_dev ∷ rs)
    else (ledger w.log ≡ some rs)
      × (delivered w.log ≡ arrivals ops (delivered begin.log))
      × Counted begin.log w.log (sends ops) w.vars.stats

-- How many buffers have been sent after an operation.
abbrev sent : NetOp → ℕ → ℕ
sent NetOp.up n = n
sent NetOp.down n = n
sent (NetOp.send skb len) n = n + 1

module _ (k : Kernel) (begin : List Event) (rs : Held) where
  operate-Up :
      (op : NetOp) (ds : List ℕ) (n : ℕ) (w : World Vars)
      → Up begin rs ds n w
      → After (λ _ w'. Up begin rs (arrival op ds) (sent op n) w') (operate k op w)
  unfolding myloop_open myloop_stop myloop_xmit ledger
  operate-Up NetOp.up ds n w (l, d, b) = (
    ground (arith, l),
    d,
    record {
      tx_packets = b.tx_packets;
      tx_bytes = b.tx_bytes;
      rx_packets = b.rx_packets;
      rx_bytes = b.rx_bytes;
    },
  )
  operate-Up NetOp.down ds n w (l, d, b) = (
    ground (arith, l),
    d,
    record {
      tx_packets = b.tx_packets;
      tx_bytes = b.tx_bytes;
      rx_packets = b.rx_packets;
      rx_bytes = b.rx_bytes;
    },
  )
  operate-Up (NetOp.send skb len) ds n w (l, d, b) = (
    ground (arith, l),
    ap (λ x. skb ∷ x) d,
    let log : List Event =
          Event.ran (Call.netif_rx skb)
          ∷ Event.ran (Call.eth_type_trans skb)
          ∷ Event.ran (Call.skb_orphan skb)
          ∷ w.log in
        let len_tx = k.number log (Call.skb_len skb) in
        let len_rx = k.number (Event.gave (Call.skb_len skb) len_tx ∷ log) (Call.skb_len skb) in
        record {
          tx_packets = ap (λ p. (p + 1) % 2 ^ 64) b.tx_packets ∙ omega arith;
          tx_bytes =
              add_mod (first_read begin) w.vars.stats.tx_bytes len_tx (first_read w.log) b.tx_bytes;
          rx_packets = ap (λ p. (p + 1) % 2 ^ 64) b.rx_packets ∙ omega arith;
          rx_bytes =
              add_mod (second_read begin) w.vars.stats.rx_bytes len_rx (second_read w.log)
                b.rx_bytes;
        },
  )

  sent-sends :
      (op : NetOp) (ops : List NetOp) (n : ℕ) → sent op n + sends ops ≡ n + sends (op ∷ ops)
  sent-sends NetOp.up ops n = refl
  sent-sends NetOp.down ops n = refl
  sent-sends (NetOp.send skb len) ops n = omega arith

  operate_all-Up :
      (ops : List NetOp) (ds : List ℕ) (n : ℕ) (w : World Vars)
      → Up begin rs ds n w
      → After (λ _ w'. Up begin rs (arrivals ops ds) (n + sends ops) w') (operate_all k ops w)
  operate_all-Up [] ds n w u =
      let same : n ≡ n + 0 = omega arith in subst (λ m. Up begin rs ds m w) same u
  operate_all-Up (op ∷ ops) ds n w u =
      After-bind (Up begin rs (arrival op ds) (sent op n))
        (λ _. Up begin rs (arrivals ops (arrival op ds)) (n + sends (op ∷ ops))) w (operate k op)
        (λ _. operate_all k ops) (operate-Up op ds n w u)
        (λ _ v u.
          subst
            (λ m.
              After (λ _ w'. Up begin rs (arrivals ops (arrival op ds)) m w') (operate_all k ops v))
            (sent-sends op ops n) (operate_all-Up ops (arrival op ds) (sent op n) v u))

module _ (k : Kernel) (rs : Held) where
  released :
      (w : World Vars)
      → ledger w.log ≡ some (bound w.vars rs)
      → ledger
          (note
            (Event.ran (Call.free_netdev w.vars.myloop_dev))
            (note (Event.ran (Call.unregister_netdev w.vars.myloop_dev)) w)).log
        ≡ some rs
  unfolding ledger
  released w l = ground arith

  exit-Over :
      (ops : List NetOp) (begin w : World Vars) (ret : ℤ)
      → nonzero ret ≡ false
      → Up begin.log rs (arrivals ops (delivered begin.log)) (sends ops) w
      → After (λ _ w'. Over rs ops begin ret w') (myloop_exit k w)
  unfolding myloop_exit ledger
  exit-Over ops begin w ret good (l, d, b) =
      let left : ledger
            (note (Event.ran (Call.free_netdev w.vars.myloop_dev))
              (note (Event.ran (Call.unregister_netdev w.vars.myloop_dev)) w)).log
          ≡ some rs =
        released w l in
      rw good (
        left,
        d,
        record {
          tx_packets = b.tx_packets;
          tx_bytes = b.tx_bytes;
          rx_packets = b.rx_packets;
          rx_bytes = b.rx_bytes;
        },
      )

  -- The initialisation clears the counters and delivers nothing.
  init-Up :
      (w : World Vars)
      → ledger w.log ≡ some rs
      → (k.number w.log Call.alloc_netdev == 0) ≡ false
      → After
          (λ ret w'.
            if nonzero ret
            then ledger w'.log ≡ some (Resource.netdev w'.vars.myloop_dev ∷ rs)
            else Up w.log rs (delivered w.log) 0 w')
          (myloop_init k w)
  unfolding myloop_init new_device ledger
  init-Up w l nz =
      let plus : first_read w.log + 0 ≡ first_read w.log = omega arith in
      let plus' : second_read w.log + 0 ≡ second_read w.log = omega arith in
      let a = answered_number k Call.alloc_netdev w in
      let dev = k.number w.log Call.alloc_netdev in
      elim (Bool-cases (nonzero (k.status a.log (Call.register_netdev dev)))) [
        | inl bad ↦ rw bad (ground (arith, l, nz))
        | inr good ↦
            rw (good, nz)
              (
                ground (arith, l, nz),
                refl,
                record {
                  tx_packets = refl;
                  tx_bytes = ap (λ x. x % 2 ^ 64) plus;
                  rx_packets = refl;
                  rx_bytes = ap (λ x. x % 2 ^ 64) plus';
                },
              )
      ]

  finish-Over :
      (ops : List NetOp) (begin : World Vars) (r : Run Vars ℤ)
      → After
          (λ ret w.
            if nonzero ret
            then ledger w.log ≡ some (Resource.netdev w.vars.myloop_dev ∷ rs)
            else Up begin.log rs (delivered begin.log) 0 w)
          r
      → After
          (Over rs ops begin)
          (elim r [ Run.ok ret w ↦ finish k ops ret w | Run.fault ↦ Run.fault ])
  finish-Over ops begin Run.fault u = u
  finish-Over ops begin (Run.ok ret w) u = elim (Bool-cases (nonzero ret)) [
    | inl bad ↦ rw (bad, Over, bad) (rw bad at u)
    | inr good ↦
        let all = arrivals ops (delivered begin.log) in
        rw good (
          After-bind (Up begin.log rs all (sends ops)) (Over rs ops begin) w (operate_all k ops)
            (λ _. myloop_exit k >> pure ret)
            (let none_before : 0 + sends ops ≡ sends ops = omega arith in
              rw none_before at
                (operate_all-Up k begin.log rs ops (delivered begin.log) 0 w (rw good at u)))
            (λ _ v u.
              After-bind (λ w'. Over rs ops begin ret w') (Over rs ops begin) v (myloop_exit k)
                (λ _. pure ret) (exit-Over ops begin v ret good u) (λ _ w' o. o)))
  ]

  -- When `alloc_netdev` gives a network device: the module's initialisation, then, if it returns 0,
  -- any sequence of openings, stops and transmissions, and the module's exit, run without a fault.
  -- In the end, after an initialisation that returns 0, nothing is held beyond `rs`, what was held
  -- before, and every buffer sent has been delivered once, in order. As many packets as have been
  -- sent are then counted as sent and as received, and the bytes counted as sent and as received
  -- add up to the lengths that were read first and second, all modulo 2 ^ 64; the two lengths of
  -- a buffer may differ, since both are read after it has been delivered. After an initialisation
  -- that fails, the network device that it has allocated is still held.
  pub myloop_session-Over :
      (ops : List NetOp) (w : World Vars)
      → ledger w.log ≡ some rs
      → (k.number w.log Call.alloc_netdev == 0) ≡ false
      → After (Over rs ops w) (session k ops w)
  myloop_session-Over ops w l nz = finish-Over ops w (myloop_init k w) (init-Up w l nz)
