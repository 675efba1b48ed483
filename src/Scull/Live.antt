-- ===== src/Scull/Live.antt =====
-- Blocks that main.c has allocated, for the proof about `scull_init`.
use mathlib.Core.Path.{fun_ext}
use char_driver_scull.Base.{
  ℕ, ℤ, zero, suc, ◌≡◌, refl, ap, ◌∙◌, false, none, some, List, [], ◌∷◌, ◌++◌, arith, ◌==◌,
  if◌then◌else◌, nonzero, length, replicate, Bool-cases, inl, inr,
}
use char_driver_scull.Kernel.{Kernel, Event, World, Run}
use char_driver_scull.Kernel.Interface.{Call}
use char_driver_scull.Scull.{ScullDev, Vars, Block, Heap, store, erase, num_devices}
use char_driver_scull.Scull.Frees.{has, Distinct, erase_all, erase_all-ne, has-append}
use char_driver_scull.Scull.Devices.{exists, AllAllocated, after_deletion, after_deletions}

abbrev pub remove : ℕ → List ℕ → List ℕ
remove p [] = []
remove p (x ∷ xs) = if p == x then remove p xs else x ∷ remove p xs

-- The addresses that `kmalloc` has given and that have not been freed since.
abbrev pub in_use : List Event → List ℕ
in_use [] = []
in_use (Event.gave (Call.kmalloc n) p ∷ log) = p ∷ in_use log
in_use (Event.ran (Call.kfree p) ∷ log) = remove p (in_use log)
in_use (_ ∷ log) = in_use log

-- `kmalloc` gives NULL or an address that is not in use.
abbrev pub Fresh : Kernel → Type 0
Fresh k =
    (log : List Event) (n : ℕ)
    → (if k.number log (Call.kmalloc n) == 0
        then false
        else has (k.number log (Call.kmalloc n)) (in_use log))
      ≡ false

-- The memory has only blocks at addresses in use.
abbrev pub Tracked : World Vars → Type 0
Tracked w = (a : ℕ) → has a (in_use w.log) ≡ false → w.vars.heap a ≡ none

-- Each pointer leads to a device structure with the given contents.
abbrev pub AllLive : (ℕ → ScullDev) → Heap → List ℕ → Type 0
AllLive contents h [] = Unit
AllLive contents h (p ∷ ps) =
    ((p == 0) ≡ false) × (h p ≡ some (Block.device (contents p))) × AllLive contents h ps

abbrev pub SameMemory : Heap → Heap → Type 0
SameMemory g h = (a : ℕ) → g a ≡ h a

-- With code 0 there are four devices, each with a structure of its own, and the memory without
-- them is as it was; with another code the memory is as it was.
abbrev pub Initialised : (junk : ℕ → ScullDev) → Heap → Run Vars ℤ → Type 0
Initialised junk h Run.fault = ⊥
Initialised junk h (Run.ok ret w) =
    if nonzero ret
    then SameMemory w.vars.heap h
    else (length w.vars.scull_devices ≡ num_devices)
      × AllLive junk w.vars.heap w.vars.scull_devices
      × Distinct w.vars.scull_devices
      × SameMemory (erase_all w.vars.scull_devices w.vars.heap) h

pub has-zeros : (x n : ℕ) → (x == 0) ≡ false → has x (replicate n 0) ≡ false
has-zeros x zero nz = refl
has-zeros x (suc n) nz = ground (arith, has-zeros x n nz)

pub Distinct-zeros :
    (junk : ℕ → ScullDev) (h : Heap) (ps : List ℕ) (n : ℕ)
    → AllLive junk h ps
    → Distinct ps
    → Distinct (ps ++ replicate n 0)
Distinct-zeros junk h [] zero l d = tt
Distinct-zeros junk h [] (suc n) l d = (refl, Distinct-zeros junk h [] n tt tt)
Distinct-zeros junk h (p ∷ ps) n (nz, _, l) (out, d) = (
  ground (arith, has-append p ps (replicate n 0), has-zeros p n nz),
  Distinct-zeros junk h ps n l d,
)

pub AllAllocated-zeros :
    (junk : ℕ → ScullDev) (h : Heap) (ps : List ℕ) (n : ℕ)
    → AllLive junk h ps
    → AllAllocated h (ps ++ replicate n 0)
AllAllocated-zeros junk h [] zero l = tt
AllAllocated-zeros junk h [] (suc n) l =
    ((λ e. ground (arith, e)), AllAllocated-zeros junk h [] n tt)
AllAllocated-zeros junk h (p ∷ ps) n (nz, at, l) =
    ((λ _. ap exists at), AllAllocated-zeros junk h ps n l)

-- NULL is in no block.
pub erase_all-zeros :
    (ps : List ℕ) (n : ℕ) (h : Heap) → erase_all (ps ++ replicate n 0) h ≡ erase_all ps h
erase_all-zeros [] zero h = refl
erase_all-zeros [] (suc n) h = erase_all-zeros [] n h
erase_all-zeros (p ∷ ps) n h = erase_all-zeros ps n (erase p h)

pub after_deletion-heap :
    (offset dev : ℕ) (w : World Vars)
    → (after_deletion offset dev w).vars.heap ≡ erase dev w.vars.heap
after_deletion-heap offset dev w = fun_ext λ q. ground arith

pub after_deletions-heap :
    (offset : ℕ) (devs : List ℕ) (w : World Vars)
    → (after_deletions offset devs w).vars.heap ≡ erase_all devs w.vars.heap
after_deletions-heap offset [] w = refl
after_deletions-heap offset (dev ∷ devs) w =
    after_deletions-heap offset devs (after_deletion offset dev w)
    ∙ ap (erase_all devs) (after_deletion-heap offset dev w)

-- An address with no block is none of the live pointers.
pub has-free :
    (junk : ℕ → ScullDev) (p : ℕ) (h : Heap) (ps : List ℕ)
    → h p ≡ none
    → AllLive junk h ps
    → has p ps ≡ false
has-free junk p h [] e l = refl
has-free junk p h (q ∷ qs) e (nz, at, l) = ground (arith, has-free junk p h qs e l)

pub Distinct-snoc :
    (ps : List ℕ) (p : ℕ) → Distinct ps → has p ps ≡ false → Distinct (ps ++ (p ∷ []))
Distinct-snoc [] p d out = (ground arith, tt)
Distinct-snoc (q ∷ qs) p (o, d) out =
    (ground (arith, has-append q qs (p ∷ [])), Distinct-snoc qs p d (ground arith))

pub AllLive-store :
    (junk : ℕ → ScullDev) (p : ℕ) (h : Heap) (ps : List ℕ)
    → (p == 0) ≡ false
    → has p ps ≡ false
    → AllLive junk h ps
    → AllLive junk (store p (Block.device (junk p)) h) (ps ++ (p ∷ []))
AllLive-store junk p h [] nz out l = (nz, ground arith, tt)
AllLive-store junk p h (q ∷ qs) nz out (nz', at, l) =
    (nz', ground (arith, at), AllLive-store junk p h qs nz (ground arith) l)

pub erase_all-same :
    (ps : List ℕ) (g h : Heap) (a : ℕ) → g a ≡ h a → erase_all ps g a ≡ erase_all ps h a
erase_all-same [] g h a e = e
erase_all-same (p ∷ ps) g h a e = erase_all-same ps (erase p g) (erase p h) a (ground (arith, e))

pub erase_all-snoc :
    (ps : List ℕ) (p : ℕ) (h : Heap) → erase_all (ps ++ (p ∷ [])) h ≡ erase p (erase_all ps h)
erase_all-snoc [] p h = refl
erase_all-snoc (q ∷ qs) p h = erase_all-snoc qs p (erase q h)

-- A new block is the last one to be erased.
pub erase_all-store :
    (ps : List ℕ) (p : ℕ) (b : Block) (h : Heap)
    → (p == 0) ≡ false
    → h p ≡ none
    → has p ps ≡ false
    → SameMemory (erase_all (ps ++ (p ∷ [])) (store p b h)) (erase_all ps h)
erase_all-store ps p b h nz e out a = elim (Bool-cases (p == a)) [
  | inl same ↦
      let at : erase_all ps h p ≡ none = erase_all-ne ps p h out ∙ e in
      let pa : p ≡ a = ground arith in
      rw erase_all-snoc (ground (arith, at, ap (erase_all ps h) pa))
  | inr apart ↦ rw erase_all-snoc (ground (arith, erase_all-same ps (store p b h) h a (rw apart)))
]
