-- ===== src/Interrupts.antt =====
-- interrupts/driver.c: a probe that reads the numbers of four interrupt vectors, and a removal. The
-- steps that the source leaves out are no part of the model.
use char_driver_scull.Base.{
  ℕ, ℤ, zero, suc, ◌+◌, Bool, true, List, pos, negsuc, ltb, if◌then◌else◌, negative, positive,
  get_or, set,
}
use char_driver_scull.Kernel.{Kernel, M, pure, ◌>>=◌, ◌>>◌, get, modify, status}
use char_driver_scull.Kernel.Interface.{Call}
pub mod Vectors
mod Tests

abbrev pub enodev : ℤ
enodev = negsuc 18

-- `struct multi_vector_priv`, with its four vectors.
pub record Vars : Type 0 where
  pub pdev : ℕ
  pub irq_vecs : List ℤ

-- `num_vectors < 4`
abbrev below_four : ℤ → Bool
below_four (pos n) = ltb n 4
below_four (negsuc n) = true

module _ (k : Kernel) where
  -- `for (; i < 4; i++)` with `n` rounds left. The label `free_vectors` frees nothing.
  pub get_vectors : (n i : ℕ) → M Vars ℤ
  get_vectors zero i = pure (pos 0)
  get_vectors (suc n) i = do
    irq ← status k (Call.pci_irq_vector i)
    modify (λ v. record v { irq_vecs = set v.irq_vecs i irq })
    if negative irq then pure irq else get_vectors n (i + 1)

  pub multi_vector_probe : (pdev : ℕ) → M Vars ℤ
  unfolding get_vectors
  multi_vector_probe pdev = do
    modify (λ v. record v { pdev = pdev })
    num_vectors ← status k Call.pci_msix_vec_count
    if below_four num_vectors then pure enodev else get_vectors 4 0

-- `for (; i < 4; i++)` with `n` rounds left. The call of `free_irq` is commented out.
free_vectors : (n i : ℕ) → M Vars (Unit {0})
free_vectors zero i = pure tt
free_vectors (suc n) i = do
  v ← get
  if positive (get_or v.irq_vecs i (pos 0)) then pure tt else pure tt
  free_vectors n (i + 1)

pub multi_vector_remove : M Vars (Unit {0})
unfolding free_vectors
multi_vector_remove = free_vectors 4 0
