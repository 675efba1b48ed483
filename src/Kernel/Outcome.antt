-- ===== src/Kernel/Outcome.antt =====
-- Postconditions of a driver's functions, in terms of what is held afterwards.
use char_driver_scull.Base.{ℕ, ℤ, pos, ◌≡◌, some, ◌==◌, if◌then◌else◌, nonzero}
use char_driver_scull.Kernel.{Run, M, pure, ◌>>=◌, ◌>>◌}
use char_driver_scull.Kernel.Ledger.{Held, ledger}

-- The run ends without a fault, with `rs` held.
abbrev pub Leaves : {S A : Type 0} → Held → Run S A → Type 0
Leaves rs Run.fault = ⊥
Leaves rs (Run.ok a w) = ledger w.log ≡ some rs

-- The run ends without a fault. With a nonzero code all that was held before is held, and nothing
-- more; with code 0, what the driver needs is held on top of it.
abbrev pub Atomic : {S : Type 0} → (S → Held → Held) → Held → Run S ℤ → Type 0
Atomic bound rs Run.fault = ⊥
Atomic bound rs (Run.ok err w) =
    if nonzero err then ledger w.log ≡ some rs else ledger w.log ≡ some (bound w.vars rs)

-- The reference for a staged start: a stage that fails returns its code, and a stage whose
-- successor fails is undone.
module _ {S : Type 0} where
  abbrev undoing : M S (Unit {0}) → ℤ → M S ℤ
  undoing undo err = if nonzero err then undo >> pure err else pure (pos 0)

  abbrev pub stage : (start : M S ℤ) (undo : M S (Unit {0})) → M S ℤ → M S ℤ
  stage start undo rest = do err ← start; if nonzero err then pure err else rest >>= undoing undo

  -- A stage that yields a pointer; `code` stands for NULL.
  abbrev pub stage_pointer :
      (start : M S ℕ) (code : ℤ) (undo : ℕ → M S (Unit {0})) → (ℕ → M S ℤ) → M S ℤ
  stage_pointer start code undo rest = do
    p ← start
    if p == 0 then pure code else rest p >>= undoing (undo p)
