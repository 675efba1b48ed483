-- ===== src/Scull/Registered.antt =====
-- The device numbers and the character devices that main.c registers.
use mathlib.Core.List.{append_assoc, append-nil}
use mathlib.Core.Path.{subst}
use char_driver_scull.Base.{
  ℕ, zero, suc, ◌+◌, ◌/◌, ◌*◌, ◌^◌, ◌≡◌, refl, sym, ap, ◌∙◌, ℤ, List, [], ◌∷◌, ◌++◌, arith, ◌==◌,
  if◌then◌else◌, nonzero, length, get_or, set, set-append, replicate, Bool-cases, inl, inr,
  length-append, length-replicate,
}
use char_driver_scull.Kernel.{
  Kernel, Event, World, M, pure, void, get, note, answered, answered_number, ◌>>=◌, ◌>>◌,
}
use char_driver_scull.Kernel.Driver.{Ends, Ends-bind, Ends-map}
use char_driver_scull.Kernel.Interface.{Call, enomem}
use char_driver_scull.Scull.{
  kfree, store, in_heap, Block, Vars, ScullDev, cdev_of, num_devices, base_minor, free_devices,
  fail, scull_setup_cdev, setup_devices,
}
use char_driver_scull.Scull.Devices.{get_or-append}
use char_driver_scull.Scull.Silent.{Registration, registrations}

-- The devices at `ps` are added, from the minor number `i` on.
abbrev pub additions : (offset devno i : ℕ) → List ℕ → List Registration → List Registration
additions offset devno i [] rs = rs
additions offset devno i (p ∷ ps) rs =
    additions offset devno (i + 1) ps
      (Registration.added (cdev_of offset p) (devno / 2 ^ 20 * 2 ^ 20 + i) ∷ rs)

-- The devices at `ps` that are not NULL are deleted, in order.
abbrev pub deletions : (offset : ℕ) → List ℕ → List Registration → List Registration
deletions offset [] rs = rs
deletions offset (p ∷ ps) rs =
    deletions offset ps (if p == 0 then rs else Registration.deleted (cdev_of offset p) ∷ rs)

deletions-zeros :
    (offset : ℕ) (ps : List ℕ) (n : ℕ) (rs : List Registration)
    → deletions offset (ps ++ replicate n 0) rs ≡ deletions offset ps rs
deletions-zeros offset [] zero rs = refl
deletions-zeros offset [] (suc n) rs = deletions-zeros offset [] n rs
deletions-zeros offset (p ∷ ps) n rs =
    deletions-zeros offset ps n
      (if p == 0 then rs else Registration.deleted (cdev_of offset p) ∷ rs)

additions-append :
    (offset devno i : ℕ) (ps : List ℕ) (p : ℕ) (rs : List Registration)
    → additions offset devno i (ps ++ (p ∷ [])) rs
      ≡ Registration.added (cdev_of offset p) (devno / 2 ^ 20 * 2 ^ 20 + (i + length ps))
        ∷ additions offset devno i ps rs
additions-append offset devno i [] p rs =
    ap (λ n. Registration.added (cdev_of offset p) (devno / 2 ^ 20 * 2 ^ 20 + n) ∷ rs) (omega arith)
additions-append offset devno i (q ∷ qs) p rs =
    additions-append offset devno (i + 1) qs p
      (Registration.added (cdev_of offset q) (devno / 2 ^ 20 * 2 ^ 20 + i) ∷ rs)
    ∙ ap
        (λ n.
          Registration.added (cdev_of offset p) (devno / 2 ^ 20 * 2 ^ 20 + n)
          ∷ additions offset devno i (q ∷ qs) rs)
        (omega arith)

module _ (k : Kernel) (offset : ℕ) where
  -- The devices `devs` have been deleted, and the variables for registrations are as they were.
  abbrev pub Freed : List ℕ → World Vars → World Vars → Type 0
  Freed devs w w' =
      (registrations w'.log ≡ deletions offset devs (registrations w.log))
      × (w'.vars.scull_devices ≡ w.vars.scull_devices)
      × (w'.vars.devno ≡ w.vars.devno)

  abbrev delete : ℕ → M Vars (Unit {0})
  delete dev = if dev == 0 then pure tt else do void (Call.cdev_del (cdev_of offset dev)); kfree dev

  delete-Freed : (dev : ℕ) (w : World Vars) → Ends (λ _ w'. Freed (dev ∷ []) w w') (delete dev w)
  delete-Freed dev w = ground arith

  pub free_devices-Freed :
      (pre devs : List ℕ) (w : World Vars)
      → w.vars.scull_devices ≡ pre ++ devs
      → Ends (λ _ w'. Freed devs w w') (free_devices k offset (length devs) (length pre) w)
  unfolding free_devices
  free_devices-Freed pre [] w e = (refl, refl, refl)
  free_devices-Freed pre (dev ∷ devs) w e =
      let at : get_or w.vars.scull_devices (length pre) 0 ≡ dev =
        rw e (get_or-append pre dev devs) in
      let next : length (pre ++ (dev ∷ [])) ≡ length pre + 1 =
        omega (arith, length-append pre (dev ∷ [])) in
      rw at (
        Ends-bind (λ _ w'. Freed (dev ∷ []) w w') _ w (delete dev)
          (λ _. free_devices k offset (length devs) (length pre + 1)) (delete-Freed dev w)
          (λ _ v f.
            Ends-map (λ _ w'. Freed devs v w') _
              (free_devices k offset (length devs) (length pre + 1) v)
              (λ _ u g. (g.0 ∙ ap (deletions offset devs) f.0, g.1 ∙ f.1, g.2 ∙ f.2))
              (rw next at (
                free_devices-Freed (pre ++ (dev ∷ [])) devs v
                  (f.1 ∙ e ∙ sym (append_assoc pre (dev ∷ []) devs))))))

  -- What `scull_init` registers on top of `rs`. With code 0: the device numbers, and then its
  -- devices, each with its own number. With an error: nothing, or the numbers and some devices,
  -- all of which are given back.
  abbrev pub Registered : (devno : ℕ) → List Registration → ℤ → World Vars → Type 0
  Registered devno rs ret w =
      if nonzero ret
      then ((ps : List ℕ) × (registrations w.log
            ≡ Registration.returned ∷ deletions offset ps (additions offset devno 0 ps rs)))
      else ((registrations w.log ≡ additions offset devno 0 w.vars.scull_devices rs)
          × (length w.vars.scull_devices ≡ num_devices))

  fail-Registered :
      (ps : List ℕ) (m : ℕ) (w : World Vars) (rs : List Registration)
      → w.vars.scull_devices ≡ ps ++ replicate m 0
      → length ps + m ≡ num_devices
      → registrations w.log ≡ additions offset w.vars.devno 0 ps rs
      → Ends (Registered w.vars.devno rs) (fail k offset w)
  unfolding fail
  fail-Registered ps m w rs e four r =
      let devs = ps ++ replicate m 0 in
      let n : num_devices ≡ length devs =
        omega (arith, length-append ps (replicate m 0), length-replicate {A = ℕ} m 0) in
      Ends-bind (λ _ w'. Freed devs w w') _ w (free_devices k offset num_devices 0)
        (λ _. do v ← get; void (Call.unregister_chrdev_region v.devno num_devices); pure enomem)
        (subst (λ x. Ends (λ _ w'. Freed devs w w') (free_devices k offset x 0 w)) (sym n)
          (free_devices-Freed [] devs w e))
        (λ _ v f. (
          ps,
          ap (λ l. Registration.returned ∷ l)
              (f.0
                ∙ deletions-zeros offset ps m (registrations w.log)
                ∙ ap (deletions offset ps) r),
        ))

  pub setup_devices-Registered :
      (junk : ℕ → ScullDev) (n : ℕ) (ps : List ℕ) (w : World Vars) (rs : List Registration)
      → w.vars.scull_devices ≡ ps ++ replicate n 0
      → length ps + n ≡ num_devices
      → registrations w.log ≡ additions offset w.vars.devno 0 ps rs
      → Ends (Registered w.vars.devno rs) (setup_devices k offset junk n (length ps) w)
  unfolding setup_devices scull_setup_cdev
  setup_devices-Registered junk zero ps w rs e four r =
      let whole : w.vars.scull_devices ≡ ps = e ∙ append-nil ps in rw whole (r, omega arith)
  setup_devices-Registered junk (suc n) ps w rs e four r =
      let c = Call.kmalloc (offset + k.sizeof_cdev) in
      let p = k.number w.log c in
      let entry : set w.vars.scull_devices (length ps) p ≡ ps ++ (p ∷ replicate n 0) =
        rw e (set-append ps 0 p (replicate n 0)) in
      let m = answered_number k c w in
      let given_to = record m {
        vars = record m.vars { scull_devices = set w.vars.scull_devices (length ps) p };
      } in
      elim (Bool-cases (p == 0)) [
        | inl z ↦
            let null : p ≡ 0 = ground arith in
            rw z (
              fail-Registered ps (suc n) given_to rs
                (entry ∙ ap (λ x. ps ++ (x ∷ replicate n 0)) null) four r)
        | inr nz ↦
            let b = Block.device (junk p) in
            let next : length (ps ++ (p ∷ [])) ≡ length ps + 1 =
              omega (arith, length-append ps (p ∷ [])) in
            let number = w.vars.devno / 2 ^ 20 * 2 ^ 20 in
            let devno = number + (length ps + base_minor + base_minor) in
            let registered =
              ap (λ l. Registration.added (cdev_of offset p) devno ∷ l) r
              ∙ ap
                  (λ x.
                    Registration.added (cdev_of offset p) (number + x)
                    ∷ additions offset w.vars.devno 0 ps rs)
                  (omega arith)
              ∙ sym (additions-append offset w.vars.devno 0 ps p rs) in
            let w' = answered k (Call.cdev_add (cdev_of offset p) devno 1) (
              note (Event.ran (Call.cdev_init (cdev_of offset p)))
                (record given_to { vars = in_heap (store p b) given_to.vars })) in
            rw nz (
              rw next at (
                setup_devices-Registered junk n (ps ++ (p ∷ [])) w' rs
                  (entry ∙ sym (append_assoc ps (p ∷ []) (replicate n 0))) (omega (arith, next))
                  registered))
      ]
