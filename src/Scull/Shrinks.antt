-- ===== src/Scull/Shrinks.antt =====
-- Memory that `scull_trim` of util.c leaves after a round, compared with that before.
use char_driver_scull.Base.{
  ◌⊎◌, get_elem?, ℕ, ℤ, zero, suc, ◌+◌, ◌≡◌, refl, ap, true, false, some, none, Option, arith, ◌==◌,
  if◌then◌else◌, Bool-cases, inl, inr,
}
use char_driver_scull.Kernel.{World, Run, M, ◌>>=◌, ◌>>◌, pure}
use char_driver_scull.Scull.{
  Vars, Block, Heap, ScullQset, erase, load, assign, kfree, as_node, entry, rounds, free_quanta,
  free_array,
}
use char_driver_scull.Scull.Devices.{exists}

-- The memory `g` has no block where `h` has none.
abbrev pub Sub : Heap → Heap → Type 0
Sub g h = (a : ℕ) → exists (g a) ≡ true → exists (h a) ≡ true

-- A run that allocates nothing, if it does not fault.
abbrev Shrinks : {A : Type 0} → Heap → Run Vars A → Type 0
Shrinks h Run.fault = Unit
Shrinks h (Run.ok a w) = Sub w.vars.heap h

Shrinks-bind :
    {A B : Type 0} (h : Heap) (w : World Vars) (m : M Vars A) (f : A → M Vars B)
    → Shrinks h (m w)
    → ((a : A) (v : World Vars) → Sub v.vars.heap h → Shrinks h (f a v))
    → Shrinks h ((m >>= f) w)
Shrinks-bind {A} {B} h w m f s next = go (m w) s
  where
    go : (r : Run Vars A) → Shrinks h r → Shrinks h (((λ _. r) >>= f) w)
    go Run.fault s = tt
    go (Run.ok a v) s = next a v s

Option-cases : {A : Type 0} (o : Option A) → (o ≡ none) ⊎ ((a : A) × (o ≡ some a))
Option-cases none = inl refl
Option-cases (some a) = inr (a, refl)

exists-some : (o : Option Block) (b : Block) → o ≡ some b → exists o ≡ true
exists-some o b e = ap exists e

erase-Sub : (p : ℕ) (h : Heap) → Sub (erase p h) h
erase-Sub p h a e = ground arith

load-Shrinks : (h : Heap) (p : ℕ) (w : World Vars) → Sub w.vars.heap h → Shrinks h (load p w)
load-Shrinks h p w s = elim (Option-cases (w.vars.heap p)) [
  | inl e ↦ rw (Shrinks, e) tt
  | inr (b, e) ↦ rw (Shrinks, e) s
]

entry-Shrinks :
    (h : Heap) (i : ℕ) (b : Block) (w : World Vars) → Sub w.vars.heap h → Shrinks h (entry i b w)
entry-Shrinks h i (Block.pointers ps) w s = elim (Option-cases (get_elem? ps i)) [
  | inl e ↦ rw (Shrinks, e) tt
  | inr (p, e) ↦ rw (Shrinks, e) s
]
entry-Shrinks h i (Block.device d) w s = tt
entry-Shrinks h i (Block.node q) w s = tt
entry-Shrinks h i Block.quantum w s = tt

kfree-Shrinks : (h : Heap) (p : ℕ) (w : World Vars) → Sub w.vars.heap h → Shrinks h (kfree p w)
kfree-Shrinks h p w s = elim (Bool-cases (p == 0)) [
  | inl z ↦ rw z (λ a l. ground (arith, s a))
  | inr nz ↦ elim (Option-cases (w.vars.heap p)) [
    | inl e ↦ rw (nz, e) tt
    | inr (b, e) ↦ rw (nz, e) (λ a l. ground (arith, s a))
  ]
]

assign-Shrinks :
    (h : Heap) (p : ℕ) (b : Block) (w : World Vars) → Sub w.vars.heap h → Shrinks h (assign p b w)
assign-Shrinks h p b w s = elim (Option-cases (w.vars.heap p)) [
  | inl e ↦ rw (Shrinks, e) tt
  | inr (old, e) ↦ rw (Shrinks, e) (λ a l. ground (arith, s a, s p (exists-some _ old e)))
]

free_quanta-Shrinks :
    (h : Heap) (n i array : ℕ) (w : World Vars)
    → Sub w.vars.heap h
    → Shrinks h (free_quanta n i array w)
unfolding free_quanta
free_quanta-Shrinks h zero i array w s = s
free_quanta-Shrinks h (suc n) i array w s =
    Shrinks-bind h w (load array) _ (load-Shrinks h array w s) λ b v s.
      Shrinks-bind h v (entry i b) _ (entry-Shrinks h i b v s) λ p v s.
        Shrinks-bind h v (kfree p) _ (kfree-Shrinks h p v s)
          λ _ v s. free_quanta-Shrinks h n (i + 1) array v s

free_array-Shrinks :
    (h : Heap) (qset : ℤ) (dptr : ℕ) (q : ScullQset) (w : World Vars)
    → Sub w.vars.heap h
    → Shrinks h (free_array qset dptr q w)
unfolding free_array
free_array-Shrinks h qset dptr q w s =
    Shrinks-bind h w (free_quanta (rounds qset) 0 q.array) _
      (free_quanta-Shrinks h (rounds qset) 0 q.array w s)
      λ _ v s.
        Shrinks-bind h v (kfree q.array) _ (kfree-Shrinks h q.array v s)
          λ _ v s. assign-Shrinks h dptr _ v s

abbrev pub clear : (qset : ℤ) (dptr : ℕ) → ScullQset → M Vars (Unit {0})
clear qset dptr q = if q.array == 0 then pure tt else free_array qset dptr q

clear-Shrinks :
    (qset : ℤ) (dptr : ℕ) (q : ScullQset) (w : World Vars)
    → Shrinks w.vars.heap (clear qset dptr q w)
clear-Shrinks qset dptr q w = elim (Bool-cases (q.array == 0)) [
  | inl z ↦ rw z (λ a l. l)
  | inr nz ↦ rw nz (free_array-Shrinks w.vars.heap qset dptr q w (λ a l. l))
]

-- The body of the loop, up to the next round.
abbrev pub body_at : (qset : ℤ) (dptr : ℕ) → Block → M Vars ℕ
body_at qset dptr b = do q ← as_node b; clear qset dptr q; kfree dptr; pure q.next

abbrev pub body : (qset : ℤ) (dptr : ℕ) → M Vars ℕ
body qset dptr = do b ← load dptr; body_at qset dptr b

-- A round leaves fewer blocks.
abbrev pub Lessens : {A : Type 0} → ℕ → World Vars → Run Vars A → Type 0
Lessens dptr w Run.fault = Unit
Lessens dptr w (Run.ok next v) =
    Sub v.vars.heap w.vars.heap
    × (exists (v.vars.heap dptr) ≡ false)
    × (exists (w.vars.heap dptr) ≡ true)

kfree-Lessens :
    (p : ℕ) (w v : World Vars)
    → (p == 0) ≡ false
    → Sub v.vars.heap w.vars.heap
    → Lessens p w (kfree p v)
kfree-Lessens p w v nz s = elim (Option-cases (v.vars.heap p)) [
  | inl e ↦ rw (nz, e) tt
  | inr (b, e) ↦ rw (nz, e) ((λ a l. ground (arith, s a)), ground arith, s p (exists-some _ b e))
]

Lessens-pure :
    {A : Type 0} (p : ℕ) (w : World Vars) (r : Run Vars (Unit {0})) (a : A)
    → Lessens p w r
    → Lessens p w (((λ _. r) >> pure a) w)
Lessens-pure p w Run.fault a l = tt
Lessens-pure p w (Run.ok _ v) a l = l

Lessens-bind :
    (p : ℕ) (w : World Vars) (r : Run Vars (Unit {0})) (next : ℕ)
    → (p == 0) ≡ false
    → Shrinks w.vars.heap r
    → Lessens p w (((λ _. r) >> (kfree p >> pure next)) w)
Lessens-bind p w Run.fault next nz s = tt
Lessens-bind p w (Run.ok _ v) next nz s =
    Lessens-pure p w (kfree p v) next (kfree-Lessens p w v nz s)

body_at-Lessens :
    (qset : ℤ) (dptr : ℕ) (b : Block) (w : World Vars)
    → (dptr == 0) ≡ false
    → w.vars.heap dptr ≡ some b
    → Lessens dptr w (body_at qset dptr b w)
body_at-Lessens qset dptr (Block.node q) w nz e =
    Lessens-bind dptr w (clear qset dptr q w) q.next nz (clear-Shrinks qset dptr q w)
body_at-Lessens qset dptr (Block.pointers ps) w nz e = tt
body_at-Lessens qset dptr (Block.device d) w nz e = tt
body_at-Lessens qset dptr Block.quantum w nz e = tt

pub body-Lessens :
    (qset : ℤ) (dptr : ℕ) (w : World Vars) → (dptr == 0) ≡ false → Lessens dptr w (body qset dptr w)
body-Lessens qset dptr w nz = elim (Option-cases (w.vars.heap dptr)) [
  | inl e ↦ rw (Lessens, e) tt
  | inr (b, e) ↦ rw (Lessens, e) (body_at-Lessens qset dptr b w nz e)
]
