-- ===== src/Interrupts/Vectors.antt =====
-- The vectors that `multi_vector_probe` of interrupts/driver.c asks for and stores.
use mathlib.Core.List.{append_assoc}
use char_driver_scull.Base.{
  ℕ, ℤ, zero, suc, pos, negsuc, ◌+◌, ◌<◌, ◌≡◌, refl, sym, ap, ◌∙◌, Bool, false, true, not, List, [],
  ◌∷◌, ◌++◌, arith, leb, if◌then◌else◌, nonzero, negative, length, length-append, set, set-append,
  Bool-cases, inl, inr,
}
use char_driver_scull.Kernel.{Kernel, Event, World, Run, answered}
use char_driver_scull.Kernel.Interface.{Call}
use char_driver_scull.Interrupts.{Vars, enodev, below_four, get_vectors, multi_vector_probe}

-- The calls that have asked for the vectors `irqs`, the first of which is vector `i`.
abbrev pub asked : (i : ℕ) → List ℤ → List Event → List Event
asked i [] log = log
asked i (irq ∷ irqs) log = asked (i + 1) irqs (Event.returned (Call.pci_irq_vector i) irq ∷ log)

abbrev pub AllValid : List ℤ → Type 0
AllValid [] = Unit
AllValid (irq ∷ irqs) = (negative irq ≡ false) × AllValid irqs

-- With code 0, `n` valid vectors from the index after `pre` on have been asked for and stored;
-- otherwise the code is the first negative answer, the last one that was asked for.
abbrev pub Got : (n : ℕ) (pre : List ℤ) → List Event → Run Vars ℤ → Type 0
Got n pre log Run.fault = ⊥
Got n pre log (Run.ok err w) =
    (irqs : List ℤ) × AllValid irqs
    × (if nonzero err
        then (negative err ≡ true)
          × (length irqs < n)
          × (w.log ≡ asked (length pre) (irqs ++ (err ∷ [])) log)
        else (length irqs ≡ n)
          × (w.vars.irq_vecs ≡ pre ++ irqs)
          × (w.log ≡ asked (length pre) irqs log))

negative-nonzero : (i : ℤ) → negative i ≡ true → nonzero i ≡ true
negative-nonzero (pos n) h = cc
negative-nonzero (negsuc n) h = refl

-- One more valid vector before the others.
Got-suc :
    (n : ℕ) (pre : List ℤ) (irq : ℤ) (log : List Event) (r : Run Vars ℤ)
    → negative irq ≡ false
    → Got n (pre ++ (irq ∷ [])) (Event.returned (Call.pci_irq_vector (length pre)) irq ∷ log) r
    → Got (suc n) pre log r
Got-suc n pre irq log Run.fault valid g = g
Got-suc n pre irq log (Run.ok err w) valid (irqs, all, g) =
    let next : length (pre ++ (irq ∷ [])) ≡ length pre + 1 =
      omega (arith, length-append pre (irq ∷ [])) in
    let log' = Event.returned (Call.pci_irq_vector (length pre)) irq ∷ log in
    elim (Bool-cases (nonzero err)) [
      | inl bad ↦
          let (neg, less, l) = rw bad at g in
          let l' = l ∙ ap (λ i. asked i (irqs ++ (err ∷ [])) log') next in
          (irq ∷ irqs, (valid, all), rw bad (neg, omega arith, l'))
      | inr good ↦
          let (four, vecs, l) = rw good at g in
          let l' = l ∙ ap (λ i. asked i irqs log') next in
          (
            irq ∷ irqs,
            (valid, all),
            rw good (omega arith, vecs ∙ append_assoc pre (irq ∷ []) irqs, l'),
          )
    ]

module _ (k : Kernel) where
  get_vectors-Got :
      (n : ℕ) (pre rest : List ℤ) (w : World Vars)
      → w.vars.irq_vecs ≡ pre ++ rest
      → length rest ≡ n
      → Got n pre w.log (get_vectors k n (length pre) w)
  unfolding get_vectors
  get_vectors-Got zero pre [] w e l = ([], tt, (refl, e, refl))
  get_vectors-Got zero pre (x ∷ rest) w e l = absurd (omega arith)
  get_vectors-Got (suc n) pre [] w e l = absurd (omega arith)
  get_vectors-Got (suc n) pre (x ∷ rest) w e l =
      let c = Call.pci_irq_vector (length pre) in
      let irq = k.status w.log c in
      let stored : set w.vars.irq_vecs (length pre) irq ≡ pre ++ (irq ∷ rest) =
        rw e (set-append pre x irq rest) in
      let next : length (pre ++ (irq ∷ [])) ≡ length pre + 1 =
        omega (arith, length-append pre (irq ∷ [])) in
      let a = answered k c w in
      let v = record a {
        vars = record a.vars { irq_vecs = set w.vars.irq_vecs (length pre) irq };
      } in
      elim (Bool-cases (negative irq)) [
        | inl bad ↦ rw bad ([], tt, rw (negative-nonzero irq bad) (bad, omega arith, refl))
        | inr good ↦
            let whole = stored ∙ sym (append_assoc pre (irq ∷ []) rest) in
            let g = get_vectors-Got n (pre ++ (irq ∷ [])) rest v whole (omega arith) in
            rw good
              (Got-suc n pre irq w.log (get_vectors k n (length pre + 1) v) good (rw next at g))
      ]

-- The number of vectors is at least four; a negative one is an error code.
abbrev pub enough : ℤ → Bool
enough (pos n) = leb 4 n
enough (negsuc n) = false

enough-below_four : (n : ℤ) → below_four n ≡ not (enough n)
enough-below_four (pos n) = ground arith
enough-below_four (negsuc n) = refl

-- `multi_vector_probe`, with room for four vectors, does not fault. When the kernel's count of
-- vectors is below four or an error code, it returns -ENODEV, asks for no vector, and leaves the
-- four entries as they were. Otherwise it asks for the vectors from 0 on, in order: it returns 0
-- when four have been answered, none of them negative, and these are the four entries then; else
-- it stops at the first negative answer and returns that.
pub multi_vector_probe-Assigned :
    (k : Kernel) (pdev : ℕ) (vecs : List ℤ) (w : World Vars)
    → w.vars.irq_vecs ≡ vecs
    → length vecs ≡ 4
    → let log = (answered k Call.pci_msix_vec_count w).log in
      if enough (k.status w.log Call.pci_msix_vec_count)
      then Got 4 [] log (multi_vector_probe k pdev w)
      else multi_vector_probe k pdev w
        ≡ Run.ok enodev (record { log = log; vars = record w.vars { pdev = pdev } })
unfolding multi_vector_probe get_vectors
multi_vector_probe-Assigned k pdev vecs w e l =
    let n = k.status w.log Call.pci_msix_vec_count in
    let v =
      answered k Call.pci_msix_vec_count (record w { vars = record w.vars { pdev = pdev } }) in
    elim (Bool-cases (enough n)) [
      | inl many ↦
          let below : below_four n ≡ false = enough-below_four n ∙ ap not many in
          rw (many, below) (get_vectors-Got k 4 [] vecs v e l)
      | inr few ↦
          let below : below_four n ≡ true = enough-below_four n ∙ ap not few in rw (few, below) refl
    ]
