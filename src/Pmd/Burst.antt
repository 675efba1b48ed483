-- ===== src/Pmd/Burst.antt =====
-- The receive and transmit bursts of network/dpdk/pmd.c over their rings.
use mathlib.Core.List.{reverse_aux}
use char_driver_scull.Base.{
  ℕ, zero, suc, ◌+◌, ◌-◌, ◌%◌, ◌≤◌, ◌<◌, ◌≡◌, refl, none, some, List, [], ◌∷◌, arith, length,
  get_elem?, get_or, set, length-set, min,
}
use char_driver_scull.Pmd.{Queue, nb_desc_max, rx_loop, my_pmd_rx_burst, tx_loop, my_pmd_tx_burst}

get_elem?-in_range : (xs : List ℕ) (i : ℕ) → i < length xs → get_elem? xs i ≡ some (get_or xs i 0)
get_elem?-in_range [] i h = absurd (omega arith)
get_elem?-in_range (x ∷ xs) zero h = refl
get_elem?-in_range (x ∷ xs) (suc i) h = get_elem?-in_range xs i (omega arith)

get_elem?-out_of_range : (xs : List ℕ) (i : ℕ) → length xs ≤ i → get_elem? xs i ≡ none
get_elem?-out_of_range [] i h = refl
get_elem?-out_of_range (x ∷ xs) zero h = absurd (omega arith)
get_elem?-out_of_range (x ∷ xs) (suc i) h = get_elem?-out_of_range xs i (omega arith)

-- The `n` descriptors of a ring from index `i` on.
abbrev pub descriptors : List ℕ → ℕ → ℕ → List ℕ
descriptors ring i zero = []
descriptors ring i (suc n) = get_or ring i 0 ∷ descriptors ring ((i + 1) % nb_desc_max) n

rx_loop_lem :
    (avail nb_pkts received n : ℕ) (q : Queue) (ring pkts : List ℕ)
    → q.rx_ring ≡ some ring
    → nb_desc_max ≤ length ring
    → q.rx_head < nb_desc_max
    → received ≤ nb_pkts
    → n ≡ min avail (nb_pkts - received)
    → rx_loop avail nb_pkts received q pkts
      ≡ some (
        record q { rx_head = (q.rx_head + n) % nb_desc_max },
        reverse_aux (descriptors ring q.rx_head n) pkts,
      )
unfolding rx_loop
rx_loop_lem zero nb_pkts received zero q ring pkts er big hd le en = ground arith
rx_loop_lem zero nb_pkts received (suc n) q ring pkts er big hd le en = absurd (omega arith)
rx_loop_lem (suc avail) nb_pkts received zero q ring pkts er big hd le en = ground arith
rx_loop_lem (suc avail) nb_pkts received (suc n) q ring pkts er big hd le en =
    let x = get_or ring q.rx_head 0 in
    let q' : Queue = record q { rx_head = (q.rx_head + 1) % nb_desc_max } in
    let next =
      rx_loop_lem avail nb_pkts (received + 1) n q' ring (x ∷ pkts) er big (omega arith)
        (omega arith) (omega arith) in
    ground (arith, get_elem?-in_range ring q.rx_head (omega arith), next)

-- With a ring of at least 1024 descriptors and an index within 1024, a receive burst is in
-- range. It takes as many packets as the hardware has, up to `nb_pkts`: the descriptors from the
-- index on, in order and around the end, and moves the index by as many; nothing else of the
-- queue changes.
pub my_pmd_rx_burst_lem :
    (avail nb_pkts : ℕ) (q : Queue) (ring : List ℕ)
    → q.rx_ring ≡ some ring
    → nb_desc_max ≤ length ring
    → q.rx_head < nb_desc_max
    → my_pmd_rx_burst avail nb_pkts q
      ≡ some (
        record q { rx_head = (q.rx_head + min avail nb_pkts) % nb_desc_max },
        reverse_aux (descriptors ring q.rx_head (min avail nb_pkts)) [],
      )
unfolding my_pmd_rx_burst
my_pmd_rx_burst_lem avail nb_pkts q ring er big hd =
    rx_loop_lem avail nb_pkts 0 (min avail nb_pkts) q ring [] er big hd (omega arith) (omega arith)

rx_loop_runs_out :
    (avail nb_pkts received : ℕ) (q : Queue) (ring pkts : List ℕ)
    → q.rx_ring ≡ some ring
    → length ring < nb_desc_max
    → q.rx_head ≤ length ring
    → length ring - q.rx_head < avail
    → length ring - q.rx_head < nb_pkts - received
    → rx_loop avail nb_pkts received q pkts ≡ none
unfolding rx_loop
rx_loop_runs_out zero nb_pkts received q ring pkts er small hd av nb = absurd (omega arith)
rx_loop_runs_out (suc avail) nb_pkts received q ring pkts er small hd av nb =
    let x = get_or ring q.rx_head 0 in
    let q' : Queue = record q { rx_head = (q.rx_head + 1) % nb_desc_max } in
    ground (
      arith,
      get_elem?-in_range ring q.rx_head,
      get_elem?-out_of_range ring q.rx_head,
      rx_loop_runs_out avail nb_pkts (received + 1) q' ring (x ∷ pkts),
    )

-- The index wraps at 1024 whatever the ring's size: over a ring of fewer descriptors, a burst
-- from an index within the ring that takes more packets than there are up to the ring's end
-- reads out of range.
pub my_pmd_rx_burst-out_of_range :
    (avail nb_pkts : ℕ) (q : Queue) (ring : List ℕ)
    → q.rx_ring ≡ some ring
    → length ring < nb_desc_max
    → q.rx_head ≤ length ring
    → length ring - q.rx_head < min avail nb_pkts
    → my_pmd_rx_burst avail nb_pkts q ≡ none
unfolding my_pmd_rx_burst
my_pmd_rx_burst-out_of_range avail nb_pkts q ring er small hd h =
    rx_loop_runs_out avail nb_pkts 0 q ring [] er small hd (omega arith) (omega arith)

-- `n` packets stored from index `i` on.
abbrev pub store : List ℕ → ℕ → ℕ → List ℕ → List ℕ
store ring i zero pkts = ring
store ring i (suc n) [] = ring
store ring i (suc n) (x ∷ pkts) = store (set ring i x) ((i + 1) % nb_desc_max) n pkts

tx_loop_lem :
    (free sent n : ℕ) (pkts : List ℕ) (q : Queue) (ring : List ℕ)
    → q.tx_ring ≡ some ring
    → nb_desc_max ≤ length ring
    → q.tx_tail < nb_desc_max
    → n ≡ min free (length pkts)
    → tx_loop free sent pkts q
      ≡ some (
        record q {
          tx_ring = some (store ring q.tx_tail n pkts);
          tx_tail = (q.tx_tail + n) % nb_desc_max;
        },
        sent + n,
      )
unfolding tx_loop
tx_loop_lem free sent zero [] q ring er big tl en = ground arith
tx_loop_lem free sent (suc n) [] q ring er big tl en = absurd (omega arith)
tx_loop_lem zero sent zero (x ∷ pkts) q ring er big tl en = ground arith
tx_loop_lem zero sent (suc n) (x ∷ pkts) q ring er big tl en = absurd (omega arith)
tx_loop_lem (suc free) sent zero (x ∷ pkts) q ring er big tl en = absurd (omega arith)
tx_loop_lem (suc free) sent (suc n) (x ∷ pkts) q ring er big tl en =
    let q' : Queue = record q {
      tx_ring = some (set ring q.tx_tail x);
      tx_tail = (q.tx_tail + 1) % nb_desc_max;
    } in
    ground (
      arith,
      length-set ring q.tx_tail x,
      tx_loop_lem free (sent + 1) n pkts q' (set ring q.tx_tail x),
    )

-- With a ring of at least 1024 descriptors and an index within 1024, a transmit burst is in
-- range. It stores as many packets as the hardware has room for, in order and around the end,
-- moves the index by as many and returns their number; nothing else of the queue changes.
pub my_pmd_tx_burst_lem :
    (free : ℕ) (pkts : List ℕ) (q : Queue) (ring : List ℕ)
    → q.tx_ring ≡ some ring
    → nb_desc_max ≤ length ring
    → q.tx_tail < nb_desc_max
    → let n : ℕ = min free (length pkts) in
      my_pmd_tx_burst free pkts q
      ≡ some (
        record q {
          tx_ring = some (store ring q.tx_tail n pkts);
          tx_tail = (q.tx_tail + n) % nb_desc_max;
        },
        n,
      )
unfolding my_pmd_tx_burst
my_pmd_tx_burst_lem free pkts q ring er big tl =
    ground (arith, tx_loop_lem free 0 (min free (length pkts)) pkts q ring er big tl)
