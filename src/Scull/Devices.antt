-- ===== src/Scull/Devices.antt =====
-- The loops over the devices in main.c.
use mathlib.Core.List.{append_assoc}
use char_driver_scull.Base.{
  ℕ, ◌+◌, ◌≡◌, refl, sym, ap, ◌∙◌, Bool, true, false, some, none, Option, List, [], ◌∷◌, ◌++◌,
  arith, ◌==◌, if◌then◌else◌, length, length-append, get_or, Bool-cases, inl, inr,
}
use char_driver_scull.Kernel.{Kernel, Event, World, Run, note}
use char_driver_scull.Kernel.Interface.{Call}
use char_driver_scull.Scull.{
  Vars, Block, Heap, erase, in_heap, cdev_of, num_devices, free_devices, scull_exit,
}
use char_driver_scull.Scull.Frees.{has, Distinct, erase-ne}

abbrev pub exists : Option Block → Bool
exists none = false
exists (some b) = true

abbrev pub is_allocated : Heap → ℕ → Bool
is_allocated h p = exists (h p)

-- Each pointer is NULL or leads to a block.
abbrev pub AllAllocated : Heap → List ℕ → Type 0
AllAllocated h [] = Unit
AllAllocated h (p ∷ ps) = ((p == 0) ≡ false → is_allocated h p ≡ true) × AllAllocated h ps

-- A device deleted and freed, if there is one.
abbrev pub after_deletion : (offset dev : ℕ) → World Vars → World Vars
after_deletion offset dev w = if dev == 0 then w else record {
  log = Event.ran (Call.kfree dev) ∷ Event.ran (Call.cdev_del (cdev_of offset dev)) ∷ w.log;
  vars = in_heap (erase dev) w.vars;
}

abbrev pub after_deletions : (offset : ℕ) → List ℕ → World Vars → World Vars
after_deletions offset [] w = w
after_deletions offset (dev ∷ devs) w = after_deletions offset devs (after_deletion offset dev w)

pub get_or-append :
    (pre : List ℕ) (x : ℕ) (post : List ℕ) → get_or (pre ++ (x ∷ post)) (length pre) 0 ≡ x
get_or-append [] x post = refl
get_or-append (y ∷ pre) x post = get_or-append pre x post

erase-kept :
    (p q : ℕ) (h : Heap) (qs : List ℕ)
    → (if p == 0 then false else has p (q ∷ qs)) ≡ false
    → erase p h q ≡ h q
erase-kept p q h qs out = elim (Bool-cases (p == 0)) [
  | inl z ↦ rw z
  | inr nz ↦ erase-ne p q h (ground arith)
]

AllAllocated-erase :
    (p : ℕ) (h : Heap) (ps : List ℕ)
    → (if p == 0 then false else has p ps) ≡ false
    → AllAllocated h ps
    → AllAllocated (erase p h) ps
AllAllocated-erase p h [] out o = tt
AllAllocated-erase p h (q ∷ qs) out (o, os) = (
  (λ nz. ap exists (erase-kept p q h qs out) ∙ o nz),
  AllAllocated-erase p h qs (ground arith) os,
)

module _ (k : Kernel) (offset : ℕ) where
  pub free_devices_lem :
      (pre devs : List ℕ) (w : World Vars)
      → w.vars.scull_devices ≡ pre ++ devs
      → AllAllocated w.vars.heap devs
      → Distinct devs
      → free_devices k offset (length devs) (length pre) w
        ≡ Run.ok tt (after_deletions offset devs w)
  unfolding free_devices
  free_devices_lem pre [] w e o d = refl
  free_devices_lem pre (dev ∷ devs) w e (o, os) (out, d) =
      let at : get_or w.vars.scull_devices (length pre) 0 ≡ dev =
        rw e (get_or-append pre dev devs) in
      let next : length (pre ++ (dev ∷ [])) ≡ length pre + 1 =
        omega (arith, length-append pre (dev ∷ [])) in
      let moved : pre ++ (dev ∷ devs) ≡ (pre ++ (dev ∷ [])) ++ devs =
        sym (append_assoc pre (dev ∷ []) devs) in
      elim (Bool-cases (dev == 0)) [
        | inl z ↦
            let rest = free_devices_lem (pre ++ (dev ∷ [])) devs w (e ∙ moved) os d in
            ground (arith, rest)
        | inr nz ↦
            let freed : World Vars = record {
              log =
                  Event.ran (Call.kfree dev)
                  ∷ Event.ran (Call.cdev_del (cdev_of offset dev))
                  ∷ w.log;
              vars = in_heap (erase dev) w.vars;
            } in
            let kept = AllAllocated-erase dev w.vars.heap devs out os in
            let rest = free_devices_lem (pre ++ (dev ∷ [])) devs freed (e ∙ moved) kept d in
            ground (arith, rest, o nz)
      ]

  -- `scull_exit` returns the device numbers and then deletes and frees each device, in order and
  -- once, for any four pointers that are NULL or lead to blocks, none of them twice.
  pub scull_exit_lem :
      (devs : List ℕ) (w : World Vars)
      → w.vars.scull_devices ≡ devs
      → length devs ≡ num_devices
      → AllAllocated w.vars.heap devs
      → Distinct devs
      → scull_exit k offset w
        ≡ Run.ok tt (
            after_deletions offset devs
              (note (Event.ran (Call.unregister_chrdev_region w.vars.devno num_devices)) w))
  unfolding scull_exit
  scull_exit_lem devs w e four o d =
      let w' = note (Event.ran (Call.unregister_chrdev_region w.vars.devno num_devices)) w in
      ap (λ n. free_devices k offset n 0 w') (sym four) ∙ free_devices_lem [] devs w' e o d
