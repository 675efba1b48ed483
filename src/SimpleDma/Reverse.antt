-- ===== src/SimpleDma/Reverse.antt =====
-- The loop of the simulated transfer of dma_user/simple_dma_module.c.
use mathlib.Core.List.{reverse, reverse-append, append_assoc}
use char_driver_scull.Base.{
  ℕ, zero, suc, ◌+◌, ◌-◌, ◌<◌, ◌≡◌, refl, ap, ◌∙◌, some, List, [], ◌∷◌, ◌++◌, arith, ◌⊎◌, inl, inr,
  length, length-append, get_elem?, set, get_elem?-append, set-append,
}
use char_driver_scull.SimpleDma.{swap, reverse_loop}

module _ {ℓ} {A : Type ℓ} where
  -- A list is empty, or it has a last element.
  last-cases : (xs : List A) → (xs ≡ []) ⊎ ((m : List A) × (y : A) × (xs ≡ m ++ (y ∷ [])))
  last-cases [] = inl refl
  last-cases (x ∷ xs) = elim (last-cases xs) [
    | inl e ↦ inr ([], x, ap (λ l. x ∷ l) e)
    | inr (m, y, e) ↦ inr (x ∷ m, y, ap (λ l. x ∷ l) e)
  ]

-- Two entries are exchanged.
swap_lem :
    (i j a b : ℕ) (pre mid post : List ℕ)
    → i ≡ length pre
    → j ≡ length (pre ++ (a ∷ mid))
    → swap i j (pre ++ (a ∷ (mid ++ (b ∷ post)))) ≡ some (pre ++ (b ∷ (mid ++ (a ∷ post))))
unfolding swap
swap_lem i j a b pre mid post ei ej = ground (arith, first, second, set_first, set_second)
  where
    joined : (x y : ℕ) → (pre ++ (x ∷ mid)) ++ (y ∷ post) ≡ pre ++ (x ∷ (mid ++ (y ∷ post)))
    joined x y = append_assoc pre (x ∷ mid) (y ∷ post)

    first : get_elem? (pre ++ (a ∷ (mid ++ (b ∷ post)))) i ≡ some a
    first = rw ei (get_elem?-append pre a (mid ++ (b ∷ post)))

    second : get_elem? (pre ++ (a ∷ (mid ++ (b ∷ post)))) j ≡ some b
    second = rw (ej, ← joined a b) (get_elem?-append (pre ++ (a ∷ mid)) b post)

    set_first : set (pre ++ (a ∷ (mid ++ (b ∷ post)))) i b ≡ pre ++ (b ∷ (mid ++ (b ∷ post)))
    set_first = rw ei (set-append pre a b (mid ++ (b ∷ post)))

    same_length : j ≡ length (pre ++ (b ∷ mid))
    same_length = omega (arith, ej, length-append pre (a ∷ mid), length-append pre (b ∷ mid))

    set_second : set (pre ++ (b ∷ (mid ++ (b ∷ post)))) j a ≡ pre ++ (b ∷ (mid ++ (a ∷ post)))
    set_second =
        rw (same_length, ← joined b b, ← joined b a) (set-append (pre ++ (b ∷ mid)) b a post)

-- One round of the loop.
reverse_loop_round :
    (fuel i j a b : ℕ) (pre mid post : List ℕ)
    → i ≡ length pre
    → j ≡ length (pre ++ (a ∷ mid))
    → reverse_loop (suc fuel) i j (pre ++ (a ∷ (mid ++ (b ∷ post))))
      ≡ reverse_loop fuel (i + 1) (j - 1) ((pre ++ (b ∷ [])) ++ (mid ++ (a ∷ post)))
unfolding reverse_loop
reverse_loop_round fuel i j a b pre mid post ei ej = ground (
  arith,
  swap_lem i j a b pre mid post ei ej,
  length-append pre (a ∷ mid),
  append_assoc pre (b ∷ []) (mid ++ (a ∷ post)),
)

reverse_ends :
    (a b : ℕ) (mid post : List ℕ)
    → reverse (a ∷ (mid ++ (b ∷ []))) ++ post ≡ b ∷ (reverse mid ++ (a ∷ post))
reverse_ends a b mid post =
    ap (λ l. l ++ post) (reverse-append (a ∷ mid) (b ∷ []))
    ∙ ap (λ l. b ∷ (l ++ post)) (reverse-append (a ∷ []) mid)
    ∙ ap (λ l. b ∷ l) (append_assoc (reverse mid) (a ∷ []) post)

-- The loop turns round the entries from `i` to `j`, and leaves the others where they are.
pub reverse_loop_lem :
    (fuel i j : ℕ) (pre mid post : List ℕ)
    → i ≡ length pre
    → i + length mid ≡ j + 1
    → length mid < fuel
    → reverse_loop fuel i j (pre ++ (mid ++ post)) ≡ some (pre ++ (reverse mid ++ post))
unfolding reverse_loop
reverse_loop_lem zero i j pre mid post ei ej h = absurd (omega arith)
reverse_loop_lem (suc fuel) i j pre [] post ei ej h = ground arith
reverse_loop_lem (suc fuel) i j pre (a ∷ mid) post ei ej h = elim (last-cases mid) [
  | inl e ↦ rw e (ground (arith, ap length e))
  | inr (m, b, e) ↦
      let n : length mid ≡ length m + 1 = omega (arith, ap length e, length-append m (b ∷ [])) in
      rw (e, append_assoc m (b ∷ []) post, reverse_ends a b m post)
        (reverse_loop_round fuel i j a b pre m post ei (omega (arith, n, length-append pre (a ∷ m)))
          ∙ reverse_loop_lem fuel (i + 1) (j - 1) (pre ++ (b ∷ [])) m (a ∷ post)
              (omega (arith, length-append pre (b ∷ []))) (omega (arith, n)) (omega (arith, n))
          ∙ ap some (append_assoc pre (b ∷ []) (reverse m ++ (a ∷ post))))
]
