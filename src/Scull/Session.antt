-- ===== src/Scull/Session.antt =====
-- The module of main.c from its initialisation to its exit.
use char_driver_scull.Base.{
  ℕ, ℤ, Bool, true, false, ◌||◌, ◌⊎◌, ◌<◌, ◌≡◌, refl, ap, ◌∙◌, inl, inr, List, [], ◌∷◌, arith, ltb,
  if◌then◌else◌, nonzero, length, get_or, replicate, Bool-cases,
}
use char_driver_scull.Kernel.{Kernel, Event, World, Run, M, pure, ◌>>=◌, ◌>>◌, get, note}
use char_driver_scull.Kernel.Driver.{After, After-bind, After-map}
use char_driver_scull.Kernel.Interface.{Call}
use char_driver_scull.Scull.{Vars, Heap, ScullDev, num_devices, scull_init, scull_exit}
use char_driver_scull.Scull.Frees.{Distinct, erase_all}
use char_driver_scull.Scull.Devices.{scull_exit_lem}
use char_driver_scull.Scull.Live.{
  Fresh, Tracked, AllLive, SameMemory, Initialised, after_deletions-heap,
}
use char_driver_scull.Scull.Init.{scull_init-Initialised}
use char_driver_scull.Scull.Files.{FileOp, is_write_only, operate}
use char_driver_scull.Scull.Loaded.{
  AllEmpty-at, AllEmpty-AllAllocated, Loaded, AllLive-AllEmpty, operate-Touched, Touched-Loaded,
}

-- A file operation on the device with the given minor number, if it is one of the module's.
abbrev pub operate_minor : Kernel → (offset fuel : ℕ) → ℕ × FileOp → M Vars (Unit {0})
operate_minor k offset fuel (minor, op) = do
  v ← get
  if ltb minor num_devices
      then operate k offset fuel (get_or v.scull_devices minor 0) op
      else pure tt

abbrev pub operate_minors : Kernel → (offset fuel : ℕ) → List (ℕ × FileOp) → M Vars (Unit {0})
operate_minors k offset fuel [] = pure tt
operate_minors k offset fuel (op ∷ ops) =
    operate_minor k offset fuel op >> operate_minors k offset fuel ops

-- Whether a device is opened write-only.
abbrev pub any_write_only : List (ℕ × FileOp) → Bool
any_write_only [] = false
any_write_only ((minor, op) ∷ ops) = is_write_only op || any_write_only ops

-- What follows the initialisation: if it has succeeded, the operations and the exit.
abbrev pub finish : Kernel → (offset fuel : ℕ) → List (ℕ × FileOp) → ℤ → M Vars ℤ
finish k offset fuel ops ret =
    if nonzero ret
    then pure ret
    else do operate_minors k offset fuel ops; scull_exit k offset; pure ret

-- The module is initialised, used, and removed if the initialisation has succeeded.
abbrev pub session : Kernel → (offset fuel : ℕ) (junk : ℕ → ScullDev) → List (ℕ × FileOp) → M Vars ℤ
session k offset fuel junk ops = do ret ← scull_init k offset junk; finish k offset fuel ops ret

module _ (k : Kernel) (offset fuel : ℕ) (enough : 0 < fuel) (c : Bool) where
  operate_minor-Loaded :
      (h : Heap) (op : ℕ × FileOp) (w : World Vars)
      → (c ≡ false → is_write_only op.1 ≡ false)
      → Loaded c h w
      → After (λ _ w'. Loaded c h w') (operate_minor k offset fuel op w)
  operate_minor-Loaded h (minor, op) w r l = elim (Bool-cases (ltb minor num_devices)) [
    | inl lt ↦
        let p = get_or w.vars.scull_devices minor 0 in
        let (nz, (d, at, z), i) =
          AllEmpty-at c w.vars.heap w.vars.scull_devices minor l.empty (ground (arith, l.four)) in
        rw lt (
          After-map _ _ (operate k offset fuel p op w)
            (λ w' t. Touched-Loaded c h p d w w' l nz i t)
            (operate-Touched k offset fuel c p d op w at z r enough))
    | inr ge ↦ rw ge l
  ]

  operate_minors-Loaded :
      (h : Heap) (ops : List (ℕ × FileOp)) (w : World Vars)
      → (c ≡ false → any_write_only ops ≡ false)
      → Loaded c h w
      → After (λ _ w'. Loaded c h w') (operate_minors k offset fuel ops w)
  operate_minors-Loaded h [] w r l = l
  operate_minors-Loaded h (op ∷ ops) w r l =
      After-bind _ _ w (operate_minor k offset fuel op) (λ _. operate_minors k offset fuel ops)
        (operate_minor-Loaded h op w (λ f. let all = r f in ground arith) l)
        (λ _ v l. operate_minors-Loaded h ops v (λ f. let all = r f in ground arith) l)

  scull_exit-Same :
      (h : Heap) (w : World Vars)
      → Loaded c h w
      → After (λ _ w'. SameMemory w'.vars.heap h) (scull_exit k offset w)
  scull_exit-Same h w l =
      let devs = w.vars.scull_devices in
      let w' = note (Event.ran (Call.unregister_chrdev_region w.vars.devno num_devices)) w in
      rw
        (scull_exit_lem k offset devs w refl l.four
          (AllEmpty-AllAllocated c w.vars.heap devs l.empty) l.distinct)
        (λ a. ap (λ g. g a) (after_deletions-heap offset devs w') ∙ l.same a)

  -- The module after an initialisation that succeeds.
  Initialised-Loaded :
      (junk : ℕ → ScullDev) (h : Heap) (w : World Vars)
      → ((p : ℕ) → c ≡ true → (junk p).first ≡ 0)
      → (length w.vars.scull_devices ≡ num_devices)
        × AllLive junk w.vars.heap w.vars.scull_devices
        × Distinct w.vars.scull_devices
        × SameMemory (erase_all w.vars.scull_devices w.vars.heap) h
      → Loaded c h w
  Initialised-Loaded junk h w cleared (four, live, d, same) = record {
    four = four;
    empty = AllLive-AllEmpty junk c w.vars.heap w.vars.scull_devices cleared live;
    distinct = d;
    same = same;
  }

  After-init :
      (junk : ℕ → ScullDev) (ops : List (ℕ × FileOp)) (h : Heap) (r : Run Vars ℤ)
      → ((p : ℕ) → c ≡ true → (junk p).first ≡ 0)
      → (c ≡ false → any_write_only ops ≡ false)
      → Initialised junk h r
      → After
          (λ _ w'. SameMemory w'.vars.heap h)
          (elim r [ Run.ok ret w ↦ finish k offset fuel ops ret w | Run.fault ↦ Run.fault ])
  After-init junk ops h Run.fault cleared r i = i
  After-init junk ops h (Run.ok ret w) cleared r i = elim (Bool-cases (nonzero ret)) [
    | inl bad ↦ rw bad (rw bad at i)
    | inr good ↦ rw good (
        After-bind _ _ w (operate_minors k offset fuel ops) (λ _. scull_exit k offset >> pure ret)
          (operate_minors-Loaded h ops w r (Initialised-Loaded junk h w cleared (rw good at i)))
          (λ _ v l.
            After-bind _ _ v (scull_exit k offset) (λ _. pure ret) (scull_exit-Same h v l)
              (λ _ w' q. q)))
  ]

module _ (k : Kernel) (offset fuel : ℕ) (enough : 0 < fuel) where
  -- When `kmalloc` gives no address that is in use, the memory has blocks at such addresses only,
  -- and either the memory that `kmalloc` gives begins with a NULL pointer or no device is opened
  -- write-only: the module's initialisation with
  -- four NULL pointers, then, if it returns 0, any sequence of openings, reads, writes and releases
  -- of any of its devices, and its exit, run without a fault, so that no block is freed twice, and
  -- the memory is in the end as it was before; after a failed initialisation it is so at once.
  pub scull_session-Same :
      (fresh : Fresh k) (junk : ℕ → ScullDev) (ops : List (ℕ × FileOp)) (w : World Vars)
      → (((p : ℕ) → (junk p).first ≡ 0) ⊎ (any_write_only ops ≡ false))
      → w.vars.scull_devices ≡ replicate num_devices 0
      → Tracked w
      → After (λ _ w'. SameMemory w'.vars.heap w.vars.heap) (session k offset fuel junk ops w)
  scull_session-Same fresh junk ops w (inl cleared) unset tracked =
      After-init k offset fuel enough true junk ops w.vars.heap (scull_init k offset junk w)
        (λ p _. cleared p) (λ f. cc) (scull_init-Initialised k offset fresh junk w unset tracked)
  scull_session-Same fresh junk ops w (inr reading) unset tracked =
      After-init k offset fuel enough false junk ops w.vars.heap (scull_init k offset junk w)
        (λ p f. cc) (λ _. reading) (scull_init-Initialised k offset fresh junk w unset tracked)
