-- ===== src/Scull/Frees.antt =====
-- Blocks of memory freed one after another, for the proofs about main.c and util.c.
use mathlib.Core.List.{append_assoc}
use char_driver_scull.Base.{
  ℕ, ◌+◌, ◌≡◌, refl, ◌∙◌, Bool, true, false, ◌||◌, some, List, [], ◌∷◌, ◌++◌, arith, ◌==◌,
  Bool-cases, inl, inr, if◌then◌else◌, length, length-append, get_elem?-append,
}
use char_driver_scull.Kernel.{Event, World, Run}
use char_driver_scull.Kernel.Interface.{Call}
use char_driver_scull.Scull.{Vars, Block, Heap, erase, kfree, in_heap, free_quanta}

abbrev pub has : ℕ → List ℕ → Bool
has a [] = false
has a (x ∷ xs) = a == x || has a xs

-- No address stands twice, beside NULL.
abbrev pub Distinct : List ℕ → Type 0
Distinct [] = Unit
Distinct (x ∷ xs) = ((if x == 0 then false else has x xs) ≡ false) × Distinct xs

-- The blocks at `xs` freed, in that order: the calls, and the memory that is left.
abbrev pub freed_calls : List ℕ → List Event → List Event
freed_calls [] log = log
freed_calls (x ∷ xs) log = freed_calls xs (Event.ran (Call.kfree x) ∷ log)

abbrev pub erase_all : List ℕ → Heap → Heap
erase_all [] h = h
erase_all (x ∷ xs) h = erase_all xs (erase x h)

abbrev pub after_frees : List ℕ → World Vars → World Vars
after_frees xs w = record { log = freed_calls xs w.log; vars = in_heap (erase_all xs) w.vars }

-- Every pointer is NULL or leads to a quantum.
abbrev pub AllQuanta : Heap → List ℕ → Type 0
AllQuanta h [] = Unit
AllQuanta h (q ∷ qs) = ((q == 0) ≡ false → h q ≡ some Block.quantum) × AllQuanta h qs

pub AllQuanta-frame :
    (h g : Heap) (qs : List ℕ)
    → ((a : ℕ) → has a qs ≡ true → (a == 0) ≡ false → g a ≡ h a)
    → AllQuanta h qs
    → AllQuanta g qs
AllQuanta-frame h g [] same o = tt
AllQuanta-frame h g (q ∷ qs) same o = (
  λ nz. same q (ground arith) nz ∙ o.0 nz,
  AllQuanta-frame h g qs (λ a i nz. same a (ground arith) nz) o.1,
)

pub kfree_lem :
    (p : ℕ) (b : Block) (w : World Vars)
    → ((p == 0) ≡ false → w.vars.heap p ≡ some b)
    → kfree p w ≡ Run.ok tt (after_frees (p ∷ []) w)
kfree_lem p b w h = elim (Bool-cases (p == 0)) [ inl z ↦ rw z | inr nz ↦ rw (nz, h nz) ]

pub erase-ne : (p q : ℕ) (h : Heap) → (p == q) ≡ false → erase p h q ≡ h q
erase-ne p q h ne = ground arith

-- The first `i` of the pointers have been freed.
pub free_quanta_lem :
    (array : ℕ) (pre qs : List ℕ) (w : World Vars)
    → w.vars.heap array ≡ some (Block.pointers (pre ++ qs))
    → AllQuanta w.vars.heap qs
    → Distinct qs
    → has array qs ≡ false
    → free_quanta (length qs) (length pre) array w ≡ Run.ok tt (after_frees qs w)
unfolding free_quanta
free_quanta_lem array pre [] w e o d out = refl
free_quanta_lem array pre (q ∷ qs) w e o d out =
    let w' = after_frees (q ∷ []) w in
    let next : length (pre ++ (q ∷ [])) ≡ length pre + 1 =
      omega (arith, length-append pre (q ∷ [])) in
    let kept : w'.vars.heap array ≡ some (Block.pointers ((pre ++ (q ∷ [])) ++ qs)) =
      rw (append_assoc pre (q ∷ []) qs) (erase-ne q array w.vars.heap (ground arith) ∙ e) in
    let owned : AllQuanta w'.vars.heap qs =
      AllQuanta-frame w.vars.heap w'.vars.heap qs
        (λ a i nz. erase-ne q a w.vars.heap (ground arith)) o.1 in
    let rest : free_quanta (length qs) (length pre + 1) array w' ≡ Run.ok tt (after_frees qs w') =
      rw (← next) (free_quanta_lem array (pre ++ (q ∷ [])) qs w' kept owned d.1 (ground arith)) in
    ground (arith, e, get_elem?-append pre q qs, kfree_lem q Block.quantum w o.0, rest)

pub erase_all-ne : (xs : List ℕ) (a : ℕ) (h : Heap) → has a xs ≡ false → erase_all xs h a ≡ h a
erase_all-ne [] a h out = refl
erase_all-ne (x ∷ xs) a h out =
    erase_all-ne xs a (erase x h) (ground arith) ∙ erase-ne x a h (ground arith)

pub after_frees-append :
    (xs ys : List ℕ) (w : World Vars) → after_frees (xs ++ ys) w ≡ after_frees ys (after_frees xs w)
after_frees-append [] ys w = refl
after_frees-append (x ∷ xs) ys w = after_frees-append xs ys (after_frees (x ∷ []) w)

pub has-append : (a : ℕ) (xs ys : List ℕ) → has a (xs ++ ys) ≡ (has a xs || has a ys)
has-append a [] ys = refl
has-append a (x ∷ xs) ys = ground (arith, has-append a xs ys)

-- Two lists that share no address but NULL.
abbrev pub Apart : List ℕ → List ℕ → Type 0
Apart xs ys = (a : ℕ) → (a == 0) ≡ false → has a ys ≡ true → has a xs ≡ false

pub Distinct-append :
    (xs ys : List ℕ) → Distinct (xs ++ ys) → Distinct xs × Distinct ys × Apart xs ys
Distinct-append [] ys d = (tt, d, λ a nz i. refl)
Distinct-append (x ∷ xs) ys d =
    let (dx, dy, apart) = Distinct-append xs ys d.1 in
    (
      (ground (arith, has-append x xs ys), dx),
      dy,
      λ a nz i. ground (arith, has-append x xs ys, apart a nz i),
    )
