-- ===== src/Nic/Smp/Position.antt =====
-- The processor at a position, before and after a move.
use char_driver_scull.Base.{
  ℕ, zero, suc, ◌+◌, ◌≤◌, ◌≡◌, ◌⊎◌, inl, inr, refl, ap, List, [], ◌∷◌, ◌++◌, arith, length,
}
use char_driver_scull.Nic.Smp.{Cpu, holders}
use char_driver_scull.Nic.Smp.Exclusion.{cpu_holds, holders-append}

-- The processor at position `n`.
abbrev pub At : List Cpu → ℕ → Cpu → Type 0
At [] n c = ⊥
At (x ∷ xs) zero c = x ≡ c
At (x ∷ xs) (suc n) c = At xs n c

pub At-holders : (cs : List Cpu) (n : ℕ) (c : Cpu) → At cs n c → cpu_holds c ≤ holders cs
At-holders [] n c a = absurd a
At-holders (x ∷ xs) zero c a = omega (arith, ap cpu_holds a)
At-holders (x ∷ xs) (suc n) c a = omega (arith, At-holders xs n c a)

-- Another processor than the one that moves is where it was.
abbrev pub Apart : List Cpu → Cpu → List Cpu → ℕ → Cpu → Type 0
Apart before d after n c =
    ((d' : Cpu) → At (before ++ (d' ∷ after)) n c)
    × (cpu_holds d + cpu_holds c ≤ holders (before ++ (d ∷ after)))

abbrev pub Itself : List Cpu → Cpu → List Cpu → ℕ → Cpu → Type 0
Itself before d after n c = (d ≡ c) × ((d' : Cpu) → At (before ++ (d' ∷ after)) n d')

pub At-cases :
    (before : List Cpu) (d : Cpu) (after : List Cpu) (n : ℕ) (c : Cpu)
    → At (before ++ (d ∷ after)) n c
    → Itself before d after n c ⊎ Apart before d after n c
At-cases [] d after zero c a = inl (a, λ d'. refl)
At-cases [] d after (suc n) c a = inr (λ d'. a, omega (arith, At-holders after n c a))
At-cases (b ∷ bs) d after zero c a =
    inr (λ d'. a, omega (arith, holders-append bs d after, ap cpu_holds a))
At-cases (b ∷ bs) d after (suc n) c a = elim (At-cases bs d after n c a) [
  | inl (e, f) ↦ inl (e, f)
  | inr (f, h) ↦ inr (f, omega arith)
]

pub At-here :
    (before : List Cpu) (c : Cpu) (after : List Cpu) → At (before ++ (c ∷ after)) (length before) c
At-here [] c after = refl
At-here (b ∷ bs) c after = At-here bs c after
