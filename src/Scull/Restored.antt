-- ===== src/Scull/Restored.antt =====
-- What the module of main.c registers, from its initialisation to its exit.
use mathlib.Core.Path.{subst}
use char_driver_scull.Base.{
  ℕ, ◌⊎◌, false, ◌<◌, ◌≡◌, refl, ap, ◌∙◌, ℤ, List, [], ◌∷◌, if◌then◌else◌, nonzero, length,
  replicate, Bool-cases, inl, inr,
}
use char_driver_scull.Kernel.{Kernel, Event, World, M, pure, note, answered, ◌>>◌}
use char_driver_scull.Kernel.Driver.{After, Ends, Ends-bind, Ends-map, After-Ends}
use char_driver_scull.Kernel.Interface.{Call}
use char_driver_scull.Scull.{
  Vars, ScullDev, num_devices, base_minor, setup_devices, free_devices, scull_init, scull_exit,
}
use char_driver_scull.Scull.Files.{FileOp}
use char_driver_scull.Scull.Live.{Fresh, Tracked, SameMemory}
use char_driver_scull.Scull.Session.{
  any_write_only, finish, session, operate_minors, scull_session-Same,
}
use char_driver_scull.Scull.Silent.{Registration, registrations, Same, operate_minors-Keeps}
use char_driver_scull.Scull.Registered.{
  additions, deletions, Registered, free_devices-Freed, setup_devices-Registered,
}

abbrev pub numbers_asked : Call
numbers_asked = Call.alloc_chrdev_region base_minor num_devices

-- What a whole session has registered that has been given `devno`: with code 0, four devices at
-- `ps`; with an error, those at `ps`. Each is deleted in the end, and the numbers are returned.
abbrev pub Restored : (offset devno : ℕ) → List Registration → ℤ → List Registration → Type 0
Restored offset devno rs ret rs' =
    (ps : List ℕ) × (let on = additions offset devno 0 ps (Registration.allocated ∷ rs) in
      if nonzero ret
      then rs' ≡ Registration.returned ∷ deletions offset ps on
      else (length ps ≡ num_devices) × (rs' ≡ deletions offset ps (Registration.returned ∷ on)))

module _ (k : Kernel) (offset fuel : ℕ) where
  scull_exit-Returned :
      (w : World Vars)
      → length w.vars.scull_devices ≡ num_devices
      → Ends
          (λ _ w'.
            registrations w'.log
            ≡ deletions offset w.vars.scull_devices (Registration.returned ∷ registrations w.log))
          (scull_exit k offset w)
  unfolding scull_exit
  scull_exit-Returned w four =
      let w' = note (Event.ran (Call.unregister_chrdev_region w.vars.devno num_devices)) w in
      subst
        (λ n.
          Ends
            (λ _ u.
              registrations u.log ≡ deletions offset w.vars.scull_devices (registrations w'.log))
            (free_devices k offset n 0 w'))
        four
        (Ends-map _ _ (free_devices k offset (length w.vars.scull_devices) 0 w') (λ _ u f. f.0)
          (free_devices-Freed k offset [] w.vars.scull_devices w' refl))

  -- What follows the initialisation.
  finish-Restored :
      (ops : List (ℕ × FileOp)) (ret : ℤ) (w : World Vars) (devno : ℕ) (rs : List Registration)
      → Registered k offset devno (Registration.allocated ∷ rs) ret w
      → Ends
          (λ r w'. Restored offset devno rs r (registrations w'.log))
          (finish k offset fuel ops ret w)
  finish-Restored ops ret w devno rs g = elim (Bool-cases (nonzero ret)) [
    | inl bad ↦ let (ps, e) = rw bad at g in rw bad (ps, rw bad e)
    | inr good ↦
        let (e, four) = rw good at g in
        let devs = w.vars.scull_devices in
        let rest : M Vars ℤ = scull_exit k offset >> pure ret in
        rw good (
          Ends-bind (λ _ v. Same w v) _ w (operate_minors k offset fuel ops) (λ _. rest)
            (operate_minors-Keeps k offset fuel ops w)
            (λ _ v s.
              Ends-bind
                (λ _ u.
                  registrations u.log
                  ≡ deletions offset v.vars.scull_devices
                      (Registration.returned ∷ registrations v.log))
                (λ r u. Restored offset devno rs r (registrations u.log)) v (scull_exit k offset)
                (λ _. pure ret) (scull_exit-Returned v (ap length s.1 ∙ four))
                (λ _ u x. (
                  devs,
                  rw good (
                    four,
                    x
                        ∙ ap (λ d. deletions offset d (Registration.returned ∷ registrations v.log))
                            s.1
                        ∙ ap (λ l. deletions offset devs (Registration.returned ∷ l)) (s.0 ∙ e),
                  ),
                ))))
  ]

  -- Without the device numbers nothing is registered; with them, all is given back.
  abbrev pub devno_given : List Event → ℕ
  devno_given log =
      k.out (Event.returned numbers_asked (k.status log numbers_asked) ∷ log) numbers_asked

  abbrev pub WholeSession : List Event → ℤ → List Event → Type 0
  WholeSession log ret log' =
      if nonzero (k.status log numbers_asked)
      then registrations log' ≡ registrations log
      else Restored offset (devno_given log) (registrations log) ret (registrations log')

  session-WholeSession :
      (junk : ℕ → ScullDev) (ops : List (ℕ × FileOp)) (w : World Vars)
      → w.vars.scull_devices ≡ replicate num_devices 0
      → Ends (λ ret w'. WholeSession w.log ret w'.log) (session k offset fuel junk ops w)
  unfolding scull_init
  session-WholeSession junk ops w e =
      let r = answered k numbers_asked w in
      let w' = record r { vars = record r.vars { devno = k.out r.log numbers_asked } } in
      elim (Bool-cases (nonzero (k.status w.log numbers_asked))) [
        | inl bad ↦ rw (bad, Ends, bad) (rw bad refl)
        | inr good ↦
            let rest =
              Ends-bind
                (Registered k offset (devno_given w.log)
                  (Registration.allocated ∷ registrations w.log))
                (λ r u.
                  Restored offset (devno_given w.log) (registrations w.log) r (registrations u.log))
                w' (setup_devices k offset junk num_devices 0) (finish k offset fuel ops)
                (setup_devices-Registered k offset junk num_devices [] w' _ e refl (rw good refl))
                (λ ret v g.
                  finish-Restored ops ret v (devno_given w.log) (registrations w.log) g) in
            Ends-map
              (λ r u.
                Restored offset (devno_given w.log) (registrations w.log) r (registrations u.log))
              _ (session k offset fuel junk ops w) (λ _ _ x. rw good x) (rw (good, Ends) rest)
      ]

  pub scull_session-Restored :
      (enough : 0 < fuel) (fresh : Fresh k) (junk : ℕ → ScullDev) (ops : List (ℕ × FileOp))
      (w : World Vars)
      → (((p : ℕ) → (junk p).first ≡ 0) ⊎ (any_write_only ops ≡ false))
      → w.vars.scull_devices ≡ replicate num_devices 0
      → Tracked w
      → After
          (λ ret w'. SameMemory w'.vars.heap w.vars.heap × WholeSession w.log ret w'.log)
          (session k offset fuel junk ops w)
  scull_session-Restored enough fresh junk ops w cleared unset tracked =
      After-Ends _ _ (session k offset fuel junk ops w)
        (scull_session-Same k offset fuel enough fresh junk ops w cleared unset tracked)
        (session-WholeSession junk ops w unset)
