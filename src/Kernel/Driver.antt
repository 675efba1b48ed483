-- ===== src/Kernel/Driver.antt =====
-- A driver as the kernel's PCI core sees it, and the histories of one device under it.
mod Post
pub use Post.*
use char_driver_scull.Base.{
  ℕ, suc, if◌then◌else◌, ℤ, Bool, true, false, not, List, some, ◌≡◌, nonzero, Bool-cases, inl, inr,
}
use char_driver_scull.Kernel.{World, Run, M, ◌>>=◌}
use char_driver_scull.Kernel.Ledger.{Held, ledger}
use char_driver_scull.Kernel.Outcome.{Leaves, Atomic}

-- `struct pci_driver`, for one device: the vendor and device identifiers that it accepts, up to the
-- entry of zeros, and its functions.
pub record PciDriver (S : Type 0) : Type 0 where
  pub id_table : List (ℕ × ℕ)
  pub probe : M S ℤ
  pub remove : M S (Unit {0})

-- What is held while the device is bound (`Bound`) and while it is not.
abbrev pub Holds : {S : Type 0} → (Held → World S → Type 0) → Bool → Held → World S → Type 0
Holds Bound false rs w = ledger w.log ≡ some rs
Holds Bound true rs w = Bound rs w

abbrev pub counted : ℤ → ℕ → ℕ
counted err n = if nonzero err then suc n else n

module _ {S Op : Type 0} (d : PciDriver S) (operate : Op → M S (Unit {0})) where
  -- The histories of a device: the core calls the probe of a device that is not bound, and the
  -- removal of one that is; in between the other functions of the driver run, in any order.
  pub data Life (begin : World S) : Bool → World S → Type 0 where
    start : Life begin false begin
    probed :
        {w w' : World S} {b : Bool} (err : ℤ)
        → Life begin false w
        → d.probe w ≡ Run.ok err w'
        → b ≡ not (nonzero err)
        → Life begin b w'
    operated :
        {w w' : World S} (op : Op)
        → Life begin true w
        → operate op w ≡ Run.ok tt w'
        → Life begin true w'
    removed : {w w' : World S} → Life begin true w → d.remove w ≡ Run.ok tt w' → Life begin false w'

  -- Each function that may be called next runs without a fault.
  abbrev pub CanGoOn : Bool → World S → Type 0
  CanGoOn false w = Runs (d.probe w)
  CanGoOn true w = Runs (d.remove w) × ((op : Op) → Runs (operate op w))

  -- How many probes of a history have failed.
  abbrev pub failures : {begin w : World S} {b : Bool} → Life begin b w → ℕ
  failures Life.start = 0
  failures (Life.probed err l run e) = counted err (failures l)
  failures (Life.operated op l run) = failures l
  failures (Life.removed l run) = failures l

  -- What the functions of a driver keep, where `I n false` is for a device that is not bound, `I n
  -- true` for one that is, and `n` counts the probes that have failed.
  pub record IsKept (I : ℕ → Bool → World S → Type 0) : Type 0 where
    pub probe_law :
        (n : ℕ) (w : World S)
        → I n false w
        → After (λ err w'. I (counted err n) (not (nonzero err)) w') (d.probe w)
    pub operate_law :
        (op : Op) (n : ℕ) (w : World S) → I n true w → After (λ _ w'. I n true w') (operate op w)
    pub remove_law : (n : ℕ) (w : World S) → I n true w → After (λ _ w'. I n false w') (d.remove w)

  module _ (I : ℕ → Bool → World S → Type 0) (laws : IsKept I) where
    open laws use {probe_law, operate_law, remove_law}

    Life-Kept :
        (begin w : World S) (b : Bool) (l : Life begin b w) → I 0 false begin → I (failures l) b w
    Life-Kept begin w b Life.start h = h
    Life-Kept begin w b (Life.probed {w = v} err l run e) h =
        rw e (rw run at (probe_law (failures l) v (Life-Kept begin v false l h)))
    Life-Kept begin w b (Life.operated {w = v} op l run) h =
        rw run at (operate_law op (failures l) v (Life-Kept begin v true l h))
    Life-Kept begin w b (Life.removed {w = v} l run) h =
        rw run at (remove_law (failures l) v (Life-Kept begin v true l h))

    kept-CanGoOn : (n : ℕ) (b : Bool) (w : World S) → I n b w → CanGoOn b w
    kept-CanGoOn n false w h = After-Runs _ (d.probe w) (probe_law n w h)
    kept-CanGoOn n true w h = (
      After-Runs _ (d.remove w) (remove_law n w h),
      λ op. After-Runs _ (operate op w) (operate_law op n w h),
    )

    -- In every history `I` is kept, and the next call does not fault.
    pub Life-Safe :
        (begin w : World S) (b : Bool) (l : Life begin b w)
        → I 0 false begin
        → I (failures l) b w × CanGoOn b w
    Life-Safe begin w b l h =
        let i = Life-Kept begin w b l h in (i, kept-CanGoOn (failures l) b w i)

  -- What the functions of a driver guarantee one by one that loses nothing.
  pub record IsBalanced (Bound : Held → World S → Type 0) : Type 0 where
    pub probe_law :
        (w : World S) (rs : Held)
        → ledger w.log ≡ some rs
        → After (λ err w'. Holds Bound (not (nonzero err)) rs w') (d.probe w)
    pub operate_law :
        (op : Op) (w : World S) (rs : Held)
        → Bound rs w
        → After (λ _ w'. Bound rs w') (operate op w)
    pub remove_law :
        (w : World S) (rs : Held)
        → Bound rs w
        → After (λ _ w'. ledger w'.log ≡ some rs) (d.remove w)

  module _ (Bound : Held → World S → Type 0) (laws : IsBalanced Bound) where
    balanced-IsKept : (rs : Held) → IsKept (λ _ b w. Holds Bound b rs w)
    balanced-IsKept rs = record {
      probe_law = λ n w h. laws.probe_law w rs h;
      operate_law = λ op n w h. laws.operate_law op w rs h;
      remove_law = λ n w h. laws.remove_law w rs h;
    }

    -- In every history nothing is lost, and the next call does not fault.
    pub Life-Sound :
        (begin w : World S) (b : Bool) (rs : Held)
        → ledger begin.log ≡ some rs
        → Life begin b w
        → Holds Bound b rs w × CanGoOn b w
    Life-Sound begin w b rs h l =
        Life-Safe (λ _ b w. Holds Bound b rs w) (balanced-IsKept rs) begin w b l h

module _ {S : Type 0} where
  abbrev pub HoldsBound : (S → Held → Held) → Held → World S → Type 0
  HoldsBound bound rs w = ledger w.log ≡ some (bound w.vars rs)

  -- A probe that is atomic meets its law.
  pub Atomic-After :
      (bound : S → Held → Held) (rs : Held) (r : Run S ℤ)
      → Atomic bound rs r
      → After (λ err w. Holds (HoldsBound bound) (not (nonzero err)) rs w) r
  Atomic-After bound rs Run.fault a = a
  Atomic-After bound rs (Run.ok err w) a = elim (Bool-cases (nonzero err)) [
    | inl e ↦ rw e (rw e at a)
    | inr e ↦ rw e (rw e at a)
  ]

  pub Leaves-After :
      {A : Type 0} (rs : Held) (r : Run S A) → Leaves rs r → After (λ _ w. ledger w.log ≡ some rs) r
  Leaves-After rs Run.fault l = l
  Leaves-After rs (Run.ok a w) l = l
