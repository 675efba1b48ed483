-- ===== src/Scull/Ends.antt =====
-- The loop of `scull_trim` in util.c on any memory, and the fuel that it needs.
use char_driver_scull.Base.{
  pos, sym, ◌∙◌, ℕ, ℤ, zero, suc, ◌+◌, ◌≤◌, ◌<◌, ◌≡◌, refl, ap, true, false, some, none, Option,
  List, [], ◌∷◌, arith, ◌==◌, if◌then◌else◌, length, Bool-cases, inl, inr,
}
use char_driver_scull.Kernel.{World, Run, M, ◌>>=◌, ◌>>◌, pure}
use char_driver_scull.Scull.{
  ScullDev, quantum_size, qset_size, Vars, Block, Heap, load, assign, kfree, as_node, as_device,
  trim_loop, scull_trim,
}
use char_driver_scull.Scull.Frees.{has}
use char_driver_scull.Scull.Devices.{exists}
use char_driver_scull.Scull.Shrinks.{Sub, clear, body_at, body, Lessens, body-Lessens}

-- The number of addresses of `xs` with a block.
abbrev live : List ℕ → Heap → ℕ
live [] h = 0
live (x ∷ xs) h = (if exists (h x) then 1 else 0) + live xs h

live_mono : (xs : List ℕ) (g h : Heap) → Sub g h → live xs g ≤ live xs h
live_mono [] g h s = omega arith
live_mono (x ∷ xs) g h s = ground (arith, s x, live_mono xs g h s)

live_less :
    (xs : List ℕ) (p : ℕ) (g h : Heap)
    → Sub g h
    → has p xs ≡ true
    → exists (h p) ≡ true
    → exists (g p) ≡ false
    → live xs g < live xs h
live_less [] p g h s i e n = cc
live_less (x ∷ xs) p g h s i e n = elim (Bool-cases (p == x)) [
  | inl same ↦
      let px : p ≡ x = ground arith in
      let here : exists (h x) ≡ true = ap (λ a. exists (h a)) (sym px) ∙ e in
      let gone : exists (g x) ≡ false = ap (λ a. exists (g a)) (sym px) ∙ n in
      ground (arith, live_mono xs g h s)
  | inr apart ↦ ground (arith, s x, live_less xs p g h s (ground arith) e n)
]

-- All blocks stand at addresses of `xs`.
abbrev pub Within : List ℕ → Heap → Type 0
Within xs h = (a : ℕ) → exists (h a) ≡ true → has a xs ≡ true

Within-Sub : (xs : List ℕ) (g h : Heap) → Sub g h → Within xs h → Within xs g
Within-Sub xs g h s w a e = w a (s a e)

bind_assoc :
    {A B C : Type 0} (r : Run Vars A) (f : A → M Vars B) (g : B → M Vars C) (w : World Vars)
    → ((λ _. r) >>= λ a. f a >>= g) w ≡ (((λ _. r) >>= f) >>= g) w
bind_assoc Run.fault f g w = refl
bind_assoc (Run.ok a v) f g w = refl

-- Two continuations of a read that agree on the block that is there.
load-bind :
    {A : Type 0} (p : ℕ) (f g : Block → M Vars A) (w : World Vars)
    → ((b : Block) → f b w ≡ g b w)
    → (load p >>= f) w ≡ (load p >>= g) w
load-bind p f g w same = go (w.vars.heap p)
  where
    go :
        (o : Option Block)
        → ((λ _. elim o [ none ↦ Run.fault | some b ↦ Run.ok b w ]) >>= f) w
          ≡ ((λ _. elim o [ none ↦ Run.fault | some b ↦ Run.ok b w ]) >>= g) w
    go none = refl
    go (some b) = same b

loop_after_two :
    (r : Run Vars (Unit {0})) (p next : ℕ) (f : ℕ → M Vars (Unit {0})) (w : World Vars)
    → ((λ _. r) >> (kfree p >> f next)) w ≡ (((λ _. r) >> (kfree p >> pure next)) >>= f) w
loop_after_two Run.fault p next f w = refl
loop_after_two (Run.ok _ v) p next f w = bind_assoc (kfree p v) (λ _. pure next) f v

loop_at :
    (qset : ℤ) (dptr : ℕ) (b : Block) (f : ℕ → M Vars (Unit {0})) (w : World Vars)
    → (do q ← as_node b; clear qset dptr q; kfree dptr; f q.next) w ≡ (body_at qset dptr b >>= f) w
loop_at qset dptr (Block.node q) f w = loop_after_two (clear qset dptr q w) dptr q.next f w
loop_at qset dptr (Block.pointers ps) f w = refl
loop_at qset dptr (Block.device d) f w = refl
loop_at qset dptr Block.quantum f w = refl

trim_loop-body :
    (fuel : ℕ) (qset : ℤ) (dptr : ℕ) (w : World Vars)
    → (dptr == 0) ≡ false
    → trim_loop (suc fuel) qset dptr w ≡ (body qset dptr >>= trim_loop fuel qset) w
unfolding trim_loop
trim_loop-body fuel qset dptr w nz =
    let f = trim_loop fuel qset in
    rw nz (
      load-bind dptr _ (λ b. body_at qset dptr b >>= f) w (λ b. loop_at qset dptr b f w)
      ∙ bind_assoc (load dptr w) (body_at qset dptr) f w)

-- Two continuations of a round that agree on fewer blocks.
Lessens-same :
    (dptr : ℕ) (f g : ℕ → M Vars (Unit {0})) (w : World Vars) (r : Run Vars ℕ)
    → Lessens dptr w r
    → ((next : ℕ) (v : World Vars) → Lessens dptr w (Run.ok next v) → f next v ≡ g next v)
    → ((λ _. r) >>= f) w ≡ ((λ _. r) >>= g) w
Lessens-same dptr f g w Run.fault l same = refl
Lessens-same dptr f g w (Run.ok next v) l same = same next v l

trim_loop-null :
    (fuel : ℕ) (qset : ℤ) (dptr : ℕ) (w : World Vars)
    → (dptr == 0) ≡ true
    → trim_loop (suc fuel) qset dptr w ≡ Run.ok tt w
unfolding trim_loop
trim_loop-null fuel qset dptr w z = rw z refl

-- More fuel than there are blocks changes nothing.
trim_loop-enough :
    (xs : List ℕ) (fuel extra : ℕ) (qset : ℤ) (dptr : ℕ) (w : World Vars)
    → Within xs w.vars.heap
    → live xs w.vars.heap < fuel
    → trim_loop (fuel + extra) qset dptr w ≡ trim_loop fuel qset dptr w
trim_loop-enough xs zero extra qset dptr w within h = absurd (omega arith)
trim_loop-enough xs (suc fuel) extra qset dptr w within h =
    let more : suc fuel + extra ≡ suc (fuel + extra) = omega arith in
    ap (λ n. trim_loop n qset dptr w) more ∙ elim (Bool-cases (dptr == 0)) [
      | inl z ↦
          trim_loop-null (fuel + extra) qset dptr w z ∙ sym (trim_loop-null fuel qset dptr w z)
      | inr nz ↦
          trim_loop-body (fuel + extra) qset dptr w nz
          ∙ Lessens-same dptr (trim_loop (fuel + extra) qset) (trim_loop fuel qset) w
              (body qset dptr w) (body-Lessens qset dptr w nz)
              (λ next v (s, gone, here).
                trim_loop-enough xs fuel extra qset next v (Within-Sub xs _ _ s within) (
                  omega (
                    arith,
                    live_less xs dptr v.vars.heap w.vars.heap s (within dptr here) here gone,
                  )))
          ∙ sym (trim_loop-body fuel qset dptr w nz)
    ]

live_le_length : (xs : List ℕ) (h : Heap) → live xs h ≤ length xs
live_le_length [] h = omega arith
live_le_length (x ∷ xs) h = ground (arith, live_le_length xs h)

-- The assignments at its end.
abbrev reset : (dev : ℕ) → ScullDev → M Vars ℤ
reset dev d = do
  assign dev
      (Block.device (record d { first = 0; quantum = quantum_size; qset = qset_size; size = 0 }))
  pure (pos 0)

-- `scull_trim` after the first read.
abbrev trim_at : (fuel dev : ℕ) → Block → M Vars ℤ
trim_at fuel dev b = do d ← as_device b; trim_loop fuel d.qset d.first; reset dev d

trim_at-enough :
    (xs : List ℕ) (fuel extra dev : ℕ) (b : Block) (w : World Vars)
    → Within xs w.vars.heap
    → length xs < fuel
    → trim_at (fuel + extra) dev b w ≡ trim_at fuel dev b w
trim_at-enough xs fuel extra dev (Block.device d) w within h =
    ap (λ r. ((λ _. r) >> reset dev d) w)
      (trim_loop-enough xs fuel extra d.qset d.first w within
        (omega (arith, live_le_length xs w.vars.heap)))
trim_at-enough xs fuel extra dev (Block.node q) w within h = refl
trim_at-enough xs fuel extra dev (Block.pointers ps) w within h = refl
trim_at-enough xs fuel extra dev Block.quantum w within h = refl

pub scull_trim-enough :
    (xs : List ℕ) (fuel extra dev : ℕ) (w : World Vars)
    → Within xs w.vars.heap
    → length xs < fuel
    → scull_trim (fuel + extra) dev w ≡ scull_trim fuel dev w
unfolding scull_trim
scull_trim-enough xs fuel extra dev w within h =
    load-bind dev (trim_at (fuel + extra) dev) (trim_at fuel dev) w
      (λ b. trim_at-enough xs fuel extra dev b w within h)
