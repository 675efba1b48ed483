-- ===== src/Scull/Init.antt =====
-- `scull_init` of main.c: its rounds, and its label `fail`.
use mathlib.Core.List.{append_assoc, append-nil}
use char_driver_scull.Base.{
  ℕ, zero, suc, ◌+◌, ◌≡◌, refl, sym, ap, ◌∙◌, none, List, [], ◌∷◌, ◌++◌, arith, ◌==◌, nonzero,
  length, length-append, length-replicate, set, set-append, replicate, Bool-cases, inl, inr, ◌*◌,
  ◌/◌, ◌^◌,
}
use char_driver_scull.Kernel.{Kernel, Event, World, Run, note, answered, answered_number}
use char_driver_scull.Kernel.Interface.{Call, enomem}
use char_driver_scull.Scull.{
  Vars, Block, Heap, ScullDev, store, in_heap, cdev_of, num_devices, base_minor, free_devices, fail,
  scull_setup_cdev, setup_devices, scull_init,
}
use char_driver_scull.Scull.Frees.{Distinct, erase_all}
use char_driver_scull.Scull.Devices.{AllAllocated, after_deletions, free_devices_lem}
use char_driver_scull.Scull.Live.{
  Fresh, Tracked, AllLive, SameMemory, Initialised, Distinct-zeros, AllAllocated-zeros,
  erase_all-zeros, after_deletions-heap, has-free, Distinct-snoc, AllLive-store, erase_all-store,
}

module _ (k : Kernel) (offset : ℕ) where
  fail_lem :
      (devs : List ℕ) (w : World Vars)
      → w.vars.scull_devices ≡ devs
      → num_devices ≡ length devs
      → AllAllocated w.vars.heap devs
      → Distinct devs
      → let w' = after_deletions offset devs w in
        fail k offset w
        ≡ Run.ok enomem
            (note (Event.ran (Call.unregister_chrdev_region w'.vars.devno num_devices)) w')
  unfolding fail
  fail_lem devs w e n o d =
      let freed : free_devices k offset num_devices 0 w
          ≡ Run.ok tt (after_deletions offset devs w) =
        ap (λ n. free_devices k offset n 0 w) n ∙ free_devices_lem k offset [] devs w e o d in
      ground (arith, freed)

  -- The branch for NULL: what has been set up is undone.
  fail-Initialised :
      (junk : ℕ → ScullDev) (ps : List ℕ) (m : ℕ) (w : World Vars) (h : Heap)
      → w.vars.scull_devices ≡ ps ++ replicate m 0
      → length ps + m ≡ num_devices
      → AllLive junk w.vars.heap ps
      → Distinct ps
      → SameMemory (erase_all ps w.vars.heap) h
      → Initialised junk h (fail k offset w)
  fail-Initialised junk ps m w h e four live d same =
      let devs = ps ++ replicate m 0 in
      let n : num_devices ≡ length devs =
        omega (arith, length-append ps (replicate m 0), length-replicate {A = ℕ} m 0) in
      let clear : (after_deletions offset devs w).vars.heap ≡ erase_all ps w.vars.heap =
        after_deletions-heap offset devs w ∙ erase_all-zeros ps m w.vars.heap in
      rw
        (fail_lem devs w e n (AllAllocated-zeros junk w.vars.heap ps m live)
          (Distinct-zeros junk w.vars.heap ps m live d))
        (λ a. ap (λ g. g a) clear ∙ same a)

  setup_devices-Initialised :
      (fresh : Fresh k) (junk : ℕ → ScullDev) (n : ℕ) (ps : List ℕ) (w : World Vars) (h : Heap)
      → w.vars.scull_devices ≡ ps ++ replicate n 0
      → length ps + n ≡ num_devices
      → AllLive junk w.vars.heap ps
      → Distinct ps
      → Tracked w
      → SameMemory (erase_all ps w.vars.heap) h
      → Initialised junk h (setup_devices k offset junk n (length ps) w)
  unfolding setup_devices scull_setup_cdev
  setup_devices-Initialised fresh junk zero ps w h e four live d tracked same =
      let whole : w.vars.scull_devices ≡ ps = e ∙ append-nil ps in
      rw whole (omega arith, live, d, same)
  setup_devices-Initialised fresh junk (suc n) ps w h e four live d tracked same =
      let c = Call.kmalloc (offset + k.sizeof_cdev) in
      let p = k.number w.log c in
      let entry : set w.vars.scull_devices (length ps) p ≡ ps ++ (p ∷ replicate n 0) =
        rw e (set-append ps 0 p (replicate n 0)) in
      let m = answered_number k c w in
      let given_to = record m {
        vars = record m.vars { scull_devices = set w.vars.scull_devices (length ps) p };
      } in
      elim (Bool-cases (p == 0)) [
        | inl z ↦
            let null : p ≡ 0 = ground arith in
            rw z (
              fail-Initialised junk ps (suc n) given_to h
                (entry ∙ ap (λ x. ps ++ (x ∷ replicate n 0)) null) four live d same)
        | inr nz ↦
            let b = Block.device (junk p) in
            let free : w.vars.heap p ≡ none =
              tracked p (ground (arith, fresh w.log (offset + k.sizeof_cdev))) in
            let out = has-free junk p w.vars.heap ps free live in
            let next : length (ps ++ (p ∷ [])) ≡ length ps + 1 =
              omega (arith, length-append ps (p ∷ [])) in
            let devno = w.vars.devno / 2 ^ 20 * 2 ^ 20 + (length ps + base_minor + base_minor) in
            let w' = answered k (Call.cdev_add (cdev_of offset p) devno 1) (
              note (Event.ran (Call.cdev_init (cdev_of offset p)))
                (record given_to { vars = in_heap (store p b) given_to.vars })) in
            rw nz (
              rw next at (
                setup_devices-Initialised fresh junk n (ps ++ (p ∷ [])) w' h
                  (entry ∙ sym (append_assoc ps (p ∷ []) (replicate n 0))) (omega (arith, next))
                  (AllLive-store junk p w.vars.heap ps nz out live) (Distinct-snoc ps p d out)
                  (λ a off. ground (arith, off, tracked a))
                  (λ a. erase_all-store ps p b w.vars.heap nz free out a ∙ same a)))
      ]

  -- When `kmalloc` gives no address that is in use, and the memory has blocks at such addresses
  -- only, `scull_init` with four NULL pointers does not fault. When it returns 0, its four devices
  -- are each in an allocated block of their own, with what `kmalloc` left there, and the memory
  -- beside them is as it was; when it returns an error, in whichever round that is, all that it has
  -- allocated is freed, and the memory is as it was.
  pub scull_init-Initialised :
      (fresh : Fresh k) (junk : ℕ → ScullDev) (w : World Vars)
      → w.vars.scull_devices ≡ replicate num_devices 0
      → Tracked w
      → Initialised junk w.vars.heap (scull_init k offset junk w)
  unfolding scull_init
  scull_init-Initialised fresh junk w e tracked =
      let c = Call.alloc_chrdev_region base_minor num_devices in
      let r = answered k c w in
      let w' = record r { vars = record r.vars { devno = k.out r.log c } } in
      let rest =
        setup_devices-Initialised fresh junk num_devices [] w' w.vars.heap e refl tt tt tracked
          (λ a. refl) in
      elim (Bool-cases (nonzero (k.status w.log c))) [
        | inl bad ↦ rw (bad, Initialised, bad) (λ a. refl)
        | inr good ↦ rw good rest
      ]
