-- ===== src/Scull/Loaded.antt =====
-- What the module of main.c keeps between its initialisation and its exit.
use char_driver_scull.Base.{
  ℕ, zero, suc, ◌<◌, ◌≡◌, refl, sym, ap, ◌∙◌, Bool, true, false, ◌⊎◌, inl, inr, some, none, List,
  [], ◌∷◌, arith, ◌==◌, length, get_or, Bool-cases,
}
use char_driver_scull.Kernel.{Kernel, World}
use char_driver_scull.Kernel.Driver.{After}
use char_driver_scull.Scull.{
  Vars, Block, Heap, ScullDev, store, erase, num_devices, scull_open, scull_read, scull_write,
  scull_release,
}
use char_driver_scull.Scull.Frees.{has, Distinct, erase_all, erase_all-ne}
use char_driver_scull.Scull.Devices.{exists, AllAllocated}
use char_driver_scull.Scull.Open.{scull_open_lem}
use char_driver_scull.Scull.Live.{AllLive, SameMemory, erase_all-same}
use char_driver_scull.Scull.Files.{FileOp, is_write_only, operate, emptied_device}

-- A device structure, which has no quantum sets if `cleared`.
abbrev IsEmpty : (cleared : Bool) → Heap → ℕ → Type 0
IsEmpty cleared h p =
    (d : ScullDev) × (h p ≡ some (Block.device d)) × (cleared ≡ true → d.first ≡ 0)

abbrev AllEmpty : (cleared : Bool) → Heap → List ℕ → Type 0
AllEmpty c h [] = Unit
AllEmpty c h (p ∷ ps) = ((p == 0) ≡ false) × IsEmpty c h p × AllEmpty c h ps

pub AllEmpty-at :
    (c : Bool) (h : Heap) (ps : List ℕ) (i : ℕ)
    → AllEmpty c h ps
    → i < length ps
    → let p = get_or ps i 0 in ((p == 0) ≡ false) × IsEmpty c h p × (has p ps ≡ true)
AllEmpty-at c h [] i e lt = absurd (omega arith)
AllEmpty-at c h (p ∷ ps) zero (nz, e, es) lt = (nz, e, ground arith)
AllEmpty-at c h (p ∷ ps) (suc i) (nz, e, es) lt =
    let (nz', e', i') = AllEmpty-at c h ps i es (omega arith) in (nz', e', ground (arith, i'))

IsEmpty-store :
    (c : Bool) (h : Heap) (p q : ℕ) (d : ScullDev)
    → IsEmpty c h q
    → IsEmpty c (store p (Block.device (emptied_device d)) h) q
IsEmpty-store c h p q d (o, e, z) = elim (Bool-cases (p == q)) [
  | inl same ↦ (emptied_device d, rw same refl, λ _. refl)
  | inr apart ↦ (o, rw apart e, z)
]

AllEmpty-store :
    (c : Bool) (h : Heap) (p : ℕ) (d : ScullDev) (ps : List ℕ)
    → AllEmpty c h ps
    → AllEmpty c (store p (Block.device (emptied_device d)) h) ps
AllEmpty-store c h p d [] e = tt
AllEmpty-store c h p d (q ∷ qs) (nz, e, es) =
    (nz, IsEmpty-store c h p q d e, AllEmpty-store c h p d qs es)

pub AllEmpty-AllAllocated :
    (c : Bool) (h : Heap) (ps : List ℕ) → AllEmpty c h ps → AllAllocated h ps
AllEmpty-AllAllocated c h [] e = tt
AllEmpty-AllAllocated c h (p ∷ ps) (nz, (d, e, z), es) =
    ((λ _. ap exists e), AllEmpty-AllAllocated c h ps es)

erase_all-gone :
    (ps : List ℕ) (h : Heap) (a : ℕ) → (a == 0) ≡ false → has a ps ≡ true → erase_all ps h a ≡ none
erase_all-gone [] h a nz i = cc
erase_all-gone (p ∷ ps) h a nz i = elim (Bool-cases (has a ps)) [
  | inl later ↦ erase_all-gone ps (erase p h) a nz later
  | inr once ↦ erase_all-ne ps a (erase p h) once ∙ ground arith
]

-- What is stored at an address that is erased leaves no trace.
erase_all-stored :
    (ps : List ℕ) (h : Heap) (p : ℕ) (b : Block)
    → (p == 0) ≡ false
    → has p ps ≡ true
    → SameMemory (erase_all ps (store p b h)) (erase_all ps h)
erase_all-stored ps h p b nz i a = elim (Bool-cases (p == a)) [
  | inl same ↦
      let pa : p ≡ a = ground arith in
      ap (erase_all ps (store p b h)) (sym pa)
      ∙ erase_all-gone ps (store p b h) p nz i
      ∙ sym (erase_all-gone ps h p nz i)
      ∙ ap (erase_all ps h) pa
  | inr apart ↦ erase_all-same ps (store p b h) h a (rw apart)
]

-- The module is loaded: four devices, without quantum sets if `cleared`, beside the memory `h`.
pub record Loaded (cleared : Bool) (h : Heap) (w : World Vars) : Type 0 where
  pub four : length w.vars.scull_devices ≡ num_devices
  pub empty : AllEmpty cleared w.vars.heap w.vars.scull_devices
  pub distinct : Distinct w.vars.scull_devices
  pub same : SameMemory (erase_all w.vars.scull_devices w.vars.heap) h

pub AllLive-AllEmpty :
    (junk : ℕ → ScullDev) (c : Bool) (h : Heap) (ps : List ℕ)
    → ((p : ℕ) → c ≡ true → (junk p).first ≡ 0)
    → AllLive junk h ps
    → AllEmpty c h ps
AllLive-AllEmpty junk c h [] cleared l = tt
AllLive-AllEmpty junk c h (p ∷ ps) cleared (nz, e, l) =
    (nz, (junk p, e, cleared p), AllLive-AllEmpty junk c h ps cleared l)

-- One operation on a device without quantum sets.
abbrev Touched : (dev : ℕ) → ScullDev → World Vars → World Vars → Type 0
Touched dev d w w' =
    (w'.vars.scull_devices ≡ w.vars.scull_devices)
    × ((w'.vars.heap ≡ w.vars.heap)
        ⊎ (w'.vars.heap ≡ store dev (Block.device (emptied_device d)) w.vars.heap))

module _ (k : Kernel) (offset fuel : ℕ) where
  operate_empty-Touched :
      (dev : ℕ) (d : ScullDev) (op : FileOp) (w : World Vars)
      → w.vars.heap dev ≡ some (Block.device (record d { first = 0 }))
      → 0 < fuel
      → After (λ _ w'. Touched dev d w w') (operate k offset fuel dev op w)
  unfolding scull_read scull_write scull_release
  operate_empty-Touched dev d (FileOp.open_file f_flags) w at h =
      ground (arith, scull_open_lem offset fuel f_flags dev d [] w at tt tt h)
  operate_empty-Touched dev d (FileOp.read count f_pos) w at h = ground arith
  operate_empty-Touched dev d (FileOp.write count f_pos) w at h = (refl, inl refl)
  operate_empty-Touched dev d FileOp.release w at h = (refl, inl refl)

  -- The device has no quantum sets, or the operation is no write-only opening.
  pub operate-Touched :
      (c : Bool) (dev : ℕ) (d : ScullDev) (op : FileOp) (w : World Vars)
      → w.vars.heap dev ≡ some (Block.device d)
      → (c ≡ true → d.first ≡ 0)
      → (c ≡ false → is_write_only op ≡ false)
      → 0 < fuel
      → After (λ _ w'. Touched dev d w w') (operate k offset fuel dev op w)
  unfolding scull_open scull_read scull_write scull_release
  operate-Touched true dev d op w at z r h =
      operate_empty-Touched dev d op w
        (at ∙ ap (λ x. some (Block.device (record d { first = x }))) (z refl)) h
  operate-Touched false dev d (FileOp.open_file f_flags) w at z r h = rw (r refl) (refl, inl refl)
  operate-Touched false dev d (FileOp.read count f_pos) w at z r h = ground arith
  operate-Touched false dev d (FileOp.write count f_pos) w at z r h = (refl, inl refl)
  operate-Touched false dev d FileOp.release w at z r h = (refl, inl refl)

pub Touched-Loaded :
    (c : Bool) (h : Heap) (p : ℕ) (d : ScullDev) (w w' : World Vars)
    → Loaded c h w
    → (p == 0) ≡ false
    → has p w.vars.scull_devices ≡ true
    → Touched p d w w'
    → Loaded c h w'
Touched-Loaded c h p d w w' l nz i (devs, inl e) = record {
  four = rw devs l.four;
  empty = rw (devs, e) l.empty;
  distinct = rw devs l.distinct;
  same = rw (devs, e) l.same;
}
Touched-Loaded c h p d w w' l nz i (devs, inr e) = record {
  four = rw devs l.four;
  empty = rw (devs, e) (AllEmpty-store c w.vars.heap p d w.vars.scull_devices l.empty);
  distinct = rw devs l.distinct;
  same =
      rw (devs, e)
        (λ a.
          erase_all-stored w.vars.scull_devices w.vars.heap p (Block.device (emptied_device d)) nz i
            a
          ∙ l.same a);
}
