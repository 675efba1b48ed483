-- ===== src/Interrupts/Tests.antt =====
-- The removal of interrupts/driver.c, on an example.
use char_driver_scull.Base.{pos, refl, [], ◌∷◌, ◌≡◌}
use char_driver_scull.Kernel.{Run}
use char_driver_scull.Interrupts.{Vars, multi_vector_remove}
use char_driver_scull.Tests.{start}

abbrev vectors : Vars
vectors = record { pdev = 1; irq_vecs = pos 9 ∷ pos 10 ∷ pos 11 ∷ pos 12 ∷ [] }

-- It makes no call: the vectors are not freed.
remove_vectors : multi_vector_remove (start vectors) ≡ Run.ok tt (start vectors)
unfolding multi_vector_remove
remove_vectors = refl
