-- ===== src/Pmd/Queues.antt =====
-- The queue set-up of network/dpdk/pmd.c.
use char_driver_scull.Base.{
  ℕ, ℤ, zero, suc, ◌*◌, ◌<◌, ◌≡◌, refl, pos, none, some, List, [], ◌∷◌, arith, ◌==◌, if◌then◌else◌,
  length, get_elem?,
}
use char_driver_scull.Kernel.{Kernel, World, Run}
use char_driver_scull.Kernel.Interface.{Call}
use char_driver_scull.Pmd.{
  Queue, Vars, on_entry, reset_rx, reset_tx, my_pmd_rx_queue_setup, my_pmd_tx_queue_setup,
}

-- Entry `i` is changed by `f`, and no other is.
abbrev pub Changed : ℕ → (Queue → Queue) → List Queue → List Queue → Type 0
Changed i f qs qs' =
    (j : ℕ)
    → get_elem? qs' j ≡ (
        if j == i
        then elim (get_elem? qs j) [ none ↦ none | some q ↦ some (f q) ]
        else get_elem? qs j)

abbrev pub update : ℕ → (Queue → Queue) → List Queue → List Queue
update i f [] = []
update zero f (q ∷ qs) = f q ∷ qs
update (suc i) f (q ∷ qs) = q ∷ update i f qs

pub on_entry_lem :
    (i : ℕ) (f : Queue → Queue) (qs : List Queue)
    → i < length qs
    → on_entry i f qs ≡ some (update i f qs)
unfolding on_entry
on_entry_lem i f [] h = absurd (omega arith)
on_entry_lem zero f (q ∷ qs) h = refl
on_entry_lem (suc i) f (q ∷ qs) h = ground (arith, on_entry_lem i f qs (omega arith))

pub length-update :
    (i : ℕ) (f : Queue → Queue) (qs : List Queue) → length (update i f qs) ≡ length qs
length-update i f [] = refl
length-update zero f (q ∷ qs) = refl
length-update (suc i) f (q ∷ qs) = omega (arith, length-update i f qs)

pub update-Changed : (i : ℕ) (f : Queue → Queue) (qs : List Queue) → Changed i f qs (update i f qs)
update-Changed i f [] j = ground arith
update-Changed zero f (q ∷ qs) zero = refl
update-Changed zero f (q ∷ qs) (suc j) = ground arith
update-Changed (suc i) f (q ∷ qs) zero = ground arith
update-Changed (suc i) f (q ∷ qs) (suc j) = ground (arith, update-Changed i f qs j)

-- The set-up of a receive queue returns 0 and changes `rx_queues` alone.
abbrev pub RxReady : (p queue_idx nb_desc : ℕ) → World Vars → Run Vars ℤ → Type 0
RxReady p i n w Run.fault = ⊥
RxReady p i n w (Run.ok err w') =
    (err ≡ pos 0)
    × Changed i (reset_rx p n) w.vars.priv.rx_queues w'.vars.priv.rx_queues
    × ((record w'.vars { priv = record w'.vars.priv { rx_queues = w.vars.priv.rx_queues } })
        ≡ w.vars)

abbrev pub TxReady : (p queue_idx nb_desc : ℕ) → World Vars → Run Vars ℤ → Type 0
TxReady p i n w Run.fault = ⊥
TxReady p i n w (Run.ok err w') =
    (err ≡ pos 0)
    × Changed i (reset_tx p n) w.vars.priv.tx_queues w'.vars.priv.tx_queues
    × ((record w'.vars { priv = record w'.vars.priv { tx_queues = w.vars.priv.tx_queues } })
        ≡ w.vars)

-- The set-up of a queue in range returns 0. It gives that queue the new ring, NULL if there is no
-- memory, and clears its indices; every other queue and all else of the port is as it was.
pub my_pmd_queue_setup-Ready :
    (k : Kernel) (queue_idx nb_desc : ℕ) (w : World Vars)
    → queue_idx < length w.vars.priv.rx_queues
    → queue_idx < length w.vars.priv.tx_queues
    → let p = k.number w.log (Call.rte_zmalloc (nb_desc * 8)) in
      RxReady p queue_idx nb_desc w (my_pmd_rx_queue_setup k queue_idx nb_desc w)
      × TxReady p queue_idx nb_desc w (my_pmd_tx_queue_setup k queue_idx nb_desc w)
unfolding my_pmd_rx_queue_setup my_pmd_tx_queue_setup
my_pmd_queue_setup-Ready k i n w hr ht =
    let p = k.number w.log (Call.rte_zmalloc (n * 8)) in
    let er = on_entry_lem i (reset_rx p n) w.vars.priv.rx_queues hr in
    let et = on_entry_lem i (reset_tx p n) w.vars.priv.tx_queues ht in
    (
      rw (er, RxReady) (refl, update-Changed i (reset_rx p n) w.vars.priv.rx_queues, refl),
      rw (et, TxReady) (refl, update-Changed i (reset_tx p n) w.vars.priv.tx_queues, refl),
    )
