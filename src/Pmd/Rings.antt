-- ===== src/Pmd/Rings.antt =====
-- The queues of network/dpdk/pmd.c with rings that the bursts can use.
use char_driver_scull.Base.{
  ℕ, zero, suc, ◌+◌, ◌≤◌, ◌<◌, ◌%◌, ◌≡◌, refl, ◌∙◌, Bool, true, false, ◌||◌, some, none, Option,
  List, [], ◌∷◌, arith, ◌==◌, if◌then◌else◌, length, length-replicate, replicate, get_elem?, set,
  length-set, Bool-cases, inl, inr,
}
use char_driver_scull.Pmd.{nb_queues, Queue, Vars, nb_desc_max, reset_rx, reset_tx, set_link}
use char_driver_scull.Pmd.Burst.{store}
use char_driver_scull.Pmd.Queues.{update, update-Changed}

abbrev pub has : ℕ → List ℕ → Bool
has i [] = false
has i (j ∷ js) = i == j || has i js

-- A queue with a ring of at least 1024 descriptors and an index within 1024.
abbrev pub RxOk : Option Queue → Type 0
RxOk none = ⊥
RxOk (some q) =
    (ring : List ℕ) × (q.rx_ring ≡ some ring)
    × (nb_desc_max ≤ length ring)
    × (q.rx_head < nb_desc_max)

abbrev pub TxOk : Option Queue → Type 0
TxOk none = ⊥
TxOk (some q) =
    (ring : List ℕ) × (q.tx_ring ≡ some ring)
    × (nb_desc_max ≤ length ring)
    × (q.tx_tail < nb_desc_max)

abbrev pub AllOk : (Option Queue → Type 0) → List ℕ → List Queue → Type 0
AllOk P is qs = (i : ℕ) → has i is ≡ true → P (get_elem? qs i)

get_elem?-set :
    (qs : List Queue) (i j : ℕ) (q : Queue)
    → i < length qs
    → get_elem? (set qs i q) j ≡ (if j == i then some q else get_elem? qs j)
get_elem?-set [] i j q h = absurd (omega arith)
get_elem?-set (x ∷ qs) zero zero q h = refl
get_elem?-set (x ∷ qs) zero (suc j) q h = ground arith
get_elem?-set (x ∷ qs) (suc i) zero q h = ground arith
get_elem?-set (x ∷ qs) (suc i) (suc j) q h = ground (arith, get_elem?-set qs i j q (omega arith))

pub length-store :
    (ring : List ℕ) (i n : ℕ) (pkts : List ℕ) → length (store ring i n pkts) ≡ length ring
length-store ring i zero pkts = refl
length-store ring i (suc n) [] = refl
length-store ring i (suc n) (x ∷ pkts) =
    length-store (set ring i x) ((i + 1) % nb_desc_max) n pkts ∙ length-set ring i x

-- A queue of the list is replaced by one that is in order too.
pub AllOk-set :
    (P : Option Queue → Type 0) (is : List ℕ) (qs : List Queue) (i : ℕ) (q : Queue)
    → i < length qs
    → AllOk P is qs
    → P (some q)
    → AllOk P is (set qs i q)
AllOk-set P is qs i q h all ok j j_in = elim (Bool-cases (j == i)) [
  | inl same ↦ rw (get_elem?-set qs i j q h, same) ok
  | inr apart ↦ rw (get_elem?-set qs i j q h, apart) (all j j_in)
]

get_elem?-in : (qs : List Queue) (i : ℕ) → i < length qs → (q : Queue) × (get_elem? qs i ≡ some q)
get_elem?-in [] i h = absurd (omega arith)
get_elem?-in (q ∷ qs) zero h = (q, refl)
get_elem?-in (q ∷ qs) (suc i) h = get_elem?-in qs i (omega arith)

-- A queue is set up, and is in order afterwards.
pub AllOk-update :
    (P : Option Queue → Type 0) (is : List ℕ) (qs : List Queue) (i : ℕ) (f : Queue → Queue)
    → i < length qs
    → AllOk P is qs
    → ((q : Queue) → P (some (f q)))
    → AllOk P (i ∷ is) (update i f qs)
AllOk-update P is qs i f h all ok j j_in = elim (Bool-cases (j == i)) [
  | inl same ↦
      let ji : j ≡ i = ground arith in
      let (q, at) = get_elem?-in qs j (omega (arith, ji)) in
      rw (update-Changed i f qs j, same, at) (ok q)
  | inr apart ↦ rw (update-Changed i f qs j, apart) (all j (ground (arith, j_in, apart)))
]

pub reset_rx-RxOk :
    (p n : ℕ) (q : Queue) → (p == 0) ≡ false → nb_desc_max ≤ n → RxOk (some (reset_rx p n q))
unfolding reset_rx
reset_rx-RxOk p n q nz big =
    (replicate n 0, rw nz refl, omega (arith, length-replicate {A = ℕ} n 0), omega arith)

pub reset_tx-TxOk :
    (p n : ℕ) (q : Queue) → (p == 0) ≡ false → nb_desc_max ≤ n → TxOk (some (reset_tx p n q))
unfolding reset_tx
reset_tx-TxOk p n q nz big =
    (replicate n 0, rw nz refl, omega (arith, length-replicate {A = ℕ} n 0), omega arith)

-- The queues in `rxs` and `txs` are set up.
pub record PortOk (rxs txs : List ℕ) (v : Vars) : Type 0 where
  pub rx_size : length v.priv.rx_queues ≡ nb_queues
  pub tx_size : length v.priv.tx_queues ≡ nb_queues
  pub rx : AllOk RxOk rxs v.priv.rx_queues
  pub tx : AllOk TxOk txs v.priv.tx_queues

pub get_elem?-inside :
    (qs : List Queue) (i : ℕ) (q : Queue) → get_elem? qs i ≡ some q → i < length qs
get_elem?-inside [] i q e = cc
get_elem?-inside (x ∷ qs) zero q e = omega arith
get_elem?-inside (x ∷ qs) (suc i) q e = omega (arith, get_elem?-inside qs i q e)

pub RxOk-some : (o : Option Queue) → RxOk o → (q : Queue) × (o ≡ some q) × RxOk (some q)
RxOk-some none ok = absurd ok
RxOk-some (some q) ok = (q, refl, ok)

pub TxOk-some : (o : Option Queue) → TxOk o → (q : Queue) × (o ≡ some q) × TxOk (some q)
TxOk-some none ok = absurd ok
TxOk-some (some q) ok = (q, refl, ok)

pub set_link-PortOk :
    (rxs txs : List ℕ) (v : Vars) (b : Bool) → PortOk rxs txs v → PortOk rxs txs (set_link b v)
unfolding set_link
set_link-PortOk rxs txs v b ok = record {
  rx_size = ok.rx_size;
  tx_size = ok.tx_size;
  rx = ok.rx;
  tx = ok.tx;
}
