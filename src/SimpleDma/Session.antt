-- ===== src/SimpleDma/Session.antt =====
-- The module of dma_user/simple_dma_module.c from its initialisation to its exit.
use char_driver_scull.Base.{
  ℕ, ℤ, ◌<◌, ◌≡◌, some, none, List, [], ◌∷◌, arith, ◌==◌, if◌then◌else◌, nonzero, length,
  length-reverse_aux, Bool-cases, inl, inr,
}
use char_driver_scull.Kernel.{Kernel, World, Run, M, pure, ◌>>=◌, ◌>>◌}
use char_driver_scull.Kernel.Driver.{After, After-bind, Leaves-After}
use char_driver_scull.Kernel.Ledger.{Held, ledger}
use char_driver_scull.SimpleDma.{
  Vars, Vma, dma_buffer_size, simple_dma_open, simple_dma_release, simple_dma_mmap,
  simple_dma_ioctl, simple_dma_fops, simple_dma_init, simple_dma_exit,
}
use char_driver_scull.SimpleDma.Ioctl.{reversed, simple_dma_ioctl_lem}
use char_driver_scull.SimpleDma.Resources.{ReturnsErrors, with_buffer, simple_dma_exit-Leaves}
use char_driver_scull.SimpleDma.Settled.{Loaded, Settled, Creates, Words, simple_dma_init-Settled}

-- A system call on a file of the device.
pub data FileOp : Type 0 where
  open_file release : FileOp
  mmap : Vma → FileOp
  ioctl : (cmd : ℕ) → FileOp

-- A call through the table of file operations.
abbrev pub operate : (k : Kernel) (page_size : ℕ) → FileOp → M Vars (Unit {0})
operate k page_size open_file = do _ ← (simple_dma_fops k page_size).open_file 0 0; pure tt
operate k page_size release = do _ ← (simple_dma_fops k page_size).release; pure tt
operate k page_size (mmap vma) = elim (simple_dma_fops k page_size).mmap [
  | none ↦ pure tt
  | some f ↦ do _ ← f vma; pure tt
]
operate k page_size (ioctl cmd) = elim (simple_dma_fops k page_size).unlocked_ioctl [
  | none ↦ pure tt
  | some f ↦ do _ ← f cmd; pure tt
]

abbrev pub operate_all : (k : Kernel) (page_size : ℕ) → List FileOp → M Vars (Unit {0})
operate_all k page_size [] = pure tt
operate_all k page_size (op ∷ ops) = operate k page_size op >> operate_all k page_size ops

abbrev pub finish : (k : Kernel) (page_size : ℕ) → List FileOp → ℤ → M Vars ℤ
finish k page_size ops ret =
    if nonzero ret
    then pure ret
    else do operate_all k page_size ops; simple_dma_exit k page_size; pure ret

-- The module is initialised, used, and removed if the initialisation has succeeded.
abbrev pub session : (k : Kernel) (page_size : ℕ) → List FileOp → M Vars ℤ
session k page_size ops = do ret ← simple_dma_init k page_size; finish k page_size ops ret

-- What is held when the session is over, by its result.
abbrev pub Over : ℕ → Held → ℤ → World Vars → Type 0
Over page_size rs ret w =
    ledger w.log
    ≡ some (if nonzero ret then with_buffer page_size w.vars.dma_buffer_virt rs else rs)

module _ (k : Kernel) (page_size : ℕ) (positive_size : 0 < page_size) where
  ioctl-Loaded :
      (cmd : ℕ) (w : World Vars) (rs : Held)
      → Loaded page_size rs w
      → After (λ _ w'. Loaded page_size rs w') (simple_dma_ioctl page_size cmd w)
  unfolding simple_dma_ioctl
  ioctl-Loaded cmd w rs (l, s) = elim (Bool-cases (w.vars.dma_buffer_virt == 0)) [
    | inl z ↦ ground arith
    | inr nz ↦
        let sized : length (reversed w).vars.buffer ≡ dma_buffer_size page_size =
          omega (arith, length-reverse_aux w.vars.buffer [], s nz) in
        rw (simple_dma_ioctl_lem page_size cmd w positive_size (s nz)) (ground arith)
  ]

  operate-Loaded :
      (op : FileOp) (w : World Vars) (rs : Held)
      → Loaded page_size rs w
      → After (λ _ w'. Loaded page_size rs w') (operate k page_size op w)
  unfolding simple_dma_open simple_dma_release simple_dma_mmap ledger
  operate-Loaded open_file w rs l = l
  operate-Loaded release w rs l = l
  operate-Loaded (mmap vma) w rs (l, s) = ground (arith, s)
  operate-Loaded (ioctl cmd) w rs l =
      After-bind (Loaded page_size rs) (λ _. Loaded page_size rs) w (simple_dma_ioctl page_size cmd)
        (λ _. pure tt) (ioctl-Loaded cmd w rs l) (λ _ v l. l)

  operate_all-Loaded :
      (ops : List FileOp) (w : World Vars) (rs : Held)
      → Loaded page_size rs w
      → After (λ _ w'. Loaded page_size rs w') (operate_all k page_size ops w)
  operate_all-Loaded [] w rs l = l
  operate_all-Loaded (op ∷ ops) w rs l =
      After-bind (Loaded page_size rs) (λ _. Loaded page_size rs) w (operate k page_size op)
        (λ _. operate_all k page_size ops) (operate-Loaded op w rs l)
        (λ _ v l. operate_all-Loaded ops v rs l)

  exit-After :
      (w : World Vars) (rs : Held)
      → Loaded page_size rs w
      → After (λ _ w'. ledger w'.log ≡ some rs) (simple_dma_exit k page_size w)
  exit-After w rs (l, _) =
      Leaves-After rs (simple_dma_exit k page_size w) (simple_dma_exit-Leaves k page_size w rs l)

  finish-Over :
      (ops : List FileOp) (r : Run Vars ℤ) (rs : Held)
      → Settled page_size rs r
      → After
          (Over page_size rs)
          (elim r [ Run.ok ret w ↦ finish k page_size ops ret w | Run.fault ↦ Run.fault ])
  finish-Over ops Run.fault rs s = s
  finish-Over ops (Run.ok ret w) rs s = elim (Bool-cases (nonzero ret)) [
    | inl bad ↦ rw (bad, Over, bad) (rw bad at s)
    | inr good ↦ rw good (
        After-bind (Loaded page_size rs) (Over page_size rs) w (operate_all k page_size ops)
          (λ _. simple_dma_exit k page_size >> pure ret)
          (operate_all-Loaded ops w rs (rw good at s))
          (λ _ v l.
            After-bind (λ w'. ledger w'.log ≡ some rs) (Over page_size rs) v
              (simple_dma_exit k page_size) (λ _. pure ret) (exit-After v rs l)
              (λ _ w' h. rw (Over, good) h)))
  ]

  pub simple_dma_session-Over :
      (errors : ReturnsErrors k) (creates : Creates k) (words : Words k) (ops : List FileOp)
      (w : World Vars) (rs : Held)
      → w.vars.dma_buffer_virt ≡ 0
      → ledger w.log ≡ some rs
      → After (Over page_size rs) (session k page_size ops w)
  simple_dma_session-Over errors creates words ops w rs z h =
      finish-Over ops (simple_dma_init k page_size w) rs
        (simple_dma_init-Settled k errors creates page_size words w rs z h)
