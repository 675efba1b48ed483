-- ===== src/Kernel/Driver/Post.antt =====
-- Postconditions of runs, and how they pass along a sequence of commands.
use char_driver_scull.Kernel.{World, Run, M, ◌>>=◌}

module _ {S A : Type 0} where
  -- The run ends without a fault, in a state of `P`.
  abbrev pub After : (A → World S → Type 0) → Run S A → Type 0
  After P Run.fault = ⊥
  After P (Run.ok a w) = P a w

  abbrev pub Runs : Run S A → Type 0
  Runs Run.fault = ⊥
  Runs (Run.ok a w) = Unit

  pub After-Runs : (P : A → World S → Type 0) (r : Run S A) → After P r → Runs r
  After-Runs P Run.fault p = p
  After-Runs P (Run.ok a w) p = tt

module _ {S A : Type 0} where
  pub After-map :
      (P Q : World S → Type 0) (r : Run S A)
      → ((w : World S) → P w → Q w)
      → After (λ _ w. P w) r
      → After (λ _ w. Q w) r
  After-map P Q Run.fault f p = p
  After-map P Q (Run.ok a w) f p = f w p

  -- A command followed by another.
  pub After-bind :
      {B : Type 0} (P : World S → Type 0) (Q : B → World S → Type 0) (w : World S) (m : M S A)
      (f : A → M S B)
      → After (λ _ v. P v) (m w)
      → ((a : A) (v : World S) → P v → After Q (f a v))
      → After Q ((m >>= f) w)
  After-bind {B} P Q w m f p next = go (m w) p
    where
      go : (r : Run S A) → After (λ _ v. P v) r → After Q (((λ _. r) >>= f) w)
      go Run.fault q = q
      go (Run.ok a v) q = next a v q

module _ {S A : Type 0} where
  -- If the run ends without a fault, it is in a state of `P`.
  abbrev pub Ends : (A → World S → Type 0) → Run S A → Type 0
  Ends P Run.fault = Unit
  Ends P (Run.ok a w) = P a w

module _ {S A : Type 0} where
  pub Ends-map :
      (P Q : A → World S → Type 0) (r : Run S A)
      → ((a : A) (w : World S) → P a w → Q a w)
      → Ends P r
      → Ends Q r
  Ends-map P Q Run.fault f p = tt
  Ends-map P Q (Run.ok a w) f p = f a w p

  pub After-Ends :
      (P Q : A → World S → Type 0) (r : Run S A)
      → After P r
      → Ends Q r
      → After (λ a w. P a w × Q a w) r
  After-Ends P Q Run.fault p q = p
  After-Ends P Q (Run.ok a w) p q = (p, q)

  pub Ends-bind :
      {B : Type 0} (P : A → World S → Type 0) (Q : B → World S → Type 0) (w : World S) (m : M S A)
      (f : A → M S B)
      → Ends P (m w)
      → ((a : A) (v : World S) → P a v → Ends Q (f a v))
      → Ends Q ((m >>= f) w)
  Ends-bind {B} P Q w m f p next = go (m w) p
    where
      go : (r : Run S A) → Ends P r → Ends Q (((λ _. r) >>= f) w)
      go Run.fault q = tt
      go (Run.ok a v) q = next a v q
