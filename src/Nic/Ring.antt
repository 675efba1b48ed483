-- ===== src/Nic/Ring.antt =====
-- The transmit ring of network/nic.c as a queue of the buffers in flight.
use char_driver_scull.Base.{
  ℕ, zero, suc, ◌+◌, ◌-◌, ◌%◌, ◌≤◌, ◌<◌, ◌≡◌, ◌≢◌, refl, ap, ap₂, ◌∙◌, List, [], ◌∷◌, ◌++◌, arith,
  length, get_or, set, length-set, length-append,
}
use char_driver_scull.Nic.{Priv, ring_size, push}

module _ {ℓ} {A : Type ℓ} where
  get_or-set_at :
      (xs : List A) (i j : ℕ) (v d : A) → i ≡ j → i < length xs → get_or (set xs i v) j d ≡ v
  get_or-set_at [] i j v d e h = absurd (omega arith)
  get_or-set_at (x ∷ xs) zero zero v d e h = refl
  get_or-set_at (x ∷ xs) zero (suc j) v d e h = absurd (omega arith)
  get_or-set_at (x ∷ xs) (suc i) zero v d e h = absurd (omega arith)
  get_or-set_at (x ∷ xs) (suc i) (suc j) v d e h =
      get_or-set_at xs i j v d (omega arith) (omega arith)

  get_or-set_apart :
      (xs : List A) (i j : ℕ) (v d : A) → i ≢ j → get_or (set xs i v) j d ≡ get_or xs j d
  get_or-set_apart [] i j v d ne = refl
  get_or-set_apart (x ∷ xs) zero zero v d ne = absurd (ne refl)
  get_or-set_apart (x ∷ xs) zero (suc j) v d ne = refl
  get_or-set_apart (x ∷ xs) (suc i) zero v d ne = refl
  get_or-set_apart (x ∷ xs) (suc i) (suc j) v d ne =
      get_or-set_apart xs i j v d (λ e. ne (ap suc e))

-- The buffers in `n` slots from slot `t` on.
abbrev pub slots : List ℕ → ℕ → ℕ → List ℕ
slots ring t zero = []
slots ring t (suc n) = get_or ring t 0 ∷ slots ring ((t + 1) % ring_size) n

-- A write `d` slots after `t` does not touch the first `n ≤ d` of them.
slots-set_apart :
    (ring : List ℕ) (i v t n d : ℕ)
    → t < ring_size
    → d < ring_size
    → n ≤ d
    → i ≡ (t + d) % ring_size
    → slots (set ring i v) t n ≡ slots ring t n
slots-set_apart ring i v t zero d ht hd hn e = refl
slots-set_apart ring i v t (suc n) d ht hd hn e =
    ap₂ ◌∷◌ (get_or-set_apart ring i t v 0 (omega arith)) (
      slots-set_apart ring i v ((t + 1) % ring_size) n (d - 1) (omega arith) (omega arith)
        (omega arith) (omega arith))

-- A write just after `n` slots adds to them.
slots-set_next :
    (ring : List ℕ) (i v t n : ℕ)
    → length ring ≡ ring_size
    → t < ring_size
    → n < ring_size
    → i ≡ (t + n) % ring_size
    → slots (set ring i v) t (suc n) ≡ slots ring t n ++ (v ∷ [])
slots-set_next ring i v t zero hl ht hn e =
    ap (λ x. x ∷ []) (get_or-set_at ring i t v 0 (omega arith) (omega arith))
slots-set_next ring i v t (suc n) hl ht hn e =
    ap₂ ◌∷◌ (get_or-set_apart ring i t v 0 (omega arith))
      (slots-set_next ring i v ((t + 1) % ring_size) n hl (omega arith) (omega arith) (omega arith))

-- All entries are pointers to buffers.
abbrev pub AllSkbs : List ℕ → Type 0
AllSkbs [] = Unit
AllSkbs (x ∷ q) = (x ≢ 0) × AllSkbs q

AllSkbs-append : (q : List ℕ) (x : ℕ) → AllSkbs q → x ≢ 0 → AllSkbs (q ++ (x ∷ []))
AllSkbs-append [] x h hx = (hx, tt)
AllSkbs-append (y ∷ q) x h hx = (h.0, AllSkbs-append q x h.1 hx)

-- The ring holds the buffers in flight `q`, the oldest first.
pub record IsRing (p : Priv) (q : List ℕ) : Type 0 where
  pub size : length p.tx_skbuff ≡ ring_size
  pub tail_in : p.tx_tail < ring_size
  pub room : length q ≤ ring_size
  pub head_at : p.tx_head ≡ (p.tx_tail + length q) % ring_size
  pub content : slots p.tx_skbuff p.tx_tail (length q) ≡ q
  pub skbs : AllSkbs q

-- With a free slot, `mynic_start_xmit` queues the buffer behind those in flight.
pub push-IsRing :
    (skb : ℕ) (p : Priv) (q : List ℕ)
    → IsRing p q
    → length q < ring_size
    → skb ≢ 0
    → IsRing (push skb p) (q ++ (skb ∷ []))
unfolding push
push-IsRing skb p q r h ne = record {
  size = ground (arith, length-set p.tx_skbuff p.tx_head skb, r.size);
  tail_in = r.tail_in;
  room = omega (arith, length-append q (skb ∷ []));
  head_at = ground (arith, r.head_at, length-append q (skb ∷ []));
  content =
      let e : length (q ++ (skb ∷ [])) ≡ suc (length q) =
        omega (arith, length-append q (skb ∷ [])) in
      rw e (
        slots-set_next p.tx_skbuff p.tx_head skb p.tx_tail (length q) r.size r.tail_in h r.head_at
        ∙ ap (λ l. l ++ (skb ∷ [])) r.content);
  skbs = AllSkbs-append q skb r.skbs ne;
}

slots-rest :
    (x : ℕ) (p : Priv) (q : List ℕ)
    → IsRing p (x ∷ q)
    → slots p.tx_skbuff ((p.tx_tail + 1) % ring_size) (length q) ≡ q
slots-rest x p q r = let c = r.content in cc

pub first-slot :
    (x : ℕ) (p : Priv) (q : List ℕ) → IsRing p (x ∷ q) → get_or p.tx_skbuff p.tx_tail 0 ≡ x
first-slot x p q r = let c = r.content in cc

-- The ring after the buffer at the tail is done with.
abbrev pub popped : Priv → Priv
popped p = record p {
  tx_skbuff = set p.tx_skbuff p.tx_tail 0;
  tx_tail = (p.tx_tail + 1) % ring_size;
}

pub popped-IsRing : (x : ℕ) (p : Priv) (q : List ℕ) → IsRing p (x ∷ q) → IsRing (popped p) q
popped-IsRing x p q r = record {
  size = ground (arith, length-set p.tx_skbuff p.tx_tail 0, r.size);
  tail_in = omega arith;
  room = omega (arith, r.room);
  head_at = ground (arith, r.head_at, r.tail_in);
  content =
      slots-set_apart p.tx_skbuff p.tx_tail 0 ((p.tx_tail + 1) % ring_size) (length q)
        (ring_size - 1) (omega arith) (omega arith) (omega (arith, r.room))
        (omega (arith, r.tail_in))
      ∙ slots-rest x p q r;
  skbs = r.skbs.1;
}

-- With 128 buffers in flight `mynic_start_xmit` does not stop: it puts the new buffer in the place
-- of the oldest one, which is then in no slot of the ring.
pub push-overwrites :
    (skb x : ℕ) (p : Priv) (q : List ℕ)
    → IsRing p (x ∷ q)
    → length (x ∷ q) ≡ ring_size
    → slots (push skb p).tx_skbuff p.tx_tail (length (x ∷ q)) ≡ skb ∷ q
unfolding push
push-overwrites skb x p q r full =
    ap₂ ◌∷◌ (get_or-set_at p.tx_skbuff p.tx_head p.tx_tail skb 0 (omega arith) (omega arith)) (
      slots-set_apart p.tx_skbuff p.tx_head skb ((p.tx_tail + 1) % ring_size) (length q)
        (ring_size - 1) (omega arith) (omega arith) (omega arith) (omega arith)
      ∙ slots-rest x p q r)
