-- ===== src/Scull/Files.antt =====
-- Any sequence of calls of the file operations of main.c on one device.
use mathlib.Core.Path.{fun_ext}
use char_driver_scull.Base.{
  ℕ, ◌%◌, ◌<◌, ◌≡◌, refl, ap, ◌∙◌, Bool, true, false, ◌||◌, some, none, List, [], ◌∷◌, arith, ◌==◌,
  if◌then◌else◌, length, Bool-cases, inl, inr,
}
use char_driver_scull.Kernel.{Kernel, World, M, pure, ◌>>=◌, ◌>>◌}
use char_driver_scull.Kernel.Driver.{After, After-bind, After-map}
use char_driver_scull.Scull.{
  Vars, Block, Heap, ScullDev, store, cdev_of, quantum_size, qset_size, scull_fops, scull_open,
  scull_release, scull_read, scull_write,
}
use char_driver_scull.Scull.Frees.{Distinct, erase_all}
use char_driver_scull.Scull.Blocks.{Node, head_addr, footprint, Owned}
use char_driver_scull.Scull.Open.{scull_open_lem}

-- A system call on a file of the device.
pub data FileOp : Type 0 where
  open_file : (f_flags : ℕ) → FileOp
  read write : (count f_pos : ℕ) → FileOp
  release : FileOp

-- `(f_flags & O_ACCMODE) == O_WRONLY`
abbrev pub is_write_only : FileOp → Bool
is_write_only (open_file f_flags) = f_flags % 4 == 1
is_write_only (read count f_pos) = false
is_write_only (write count f_pos) = false
is_write_only release = false

abbrev pub any_write_only : List FileOp → Bool
any_write_only [] = false
any_write_only (op ∷ ops) = is_write_only op || any_write_only ops

-- A device with no quantum sets and the default sizes.
abbrev pub emptied_device : ScullDev → ScullDev
emptied_device d = record d { first = 0; quantum = quantum_size; qset = qset_size; size = 0 }

-- The memory with the list's blocks freed and the device emptied.
abbrev pub emptied : (dev : ℕ) → ScullDev → List Node → Heap → Heap
emptied dev d ns h = store dev (Block.device (emptied_device d)) (erase_all (footprint ns) h)

store-store : (p : ℕ) (b : Block) (h : Heap) → store p b (store p b h) ≡ store p b h
store-store p b h = fun_ext λ q. ground arith

module _ (k : Kernel) (offset fuel dev : ℕ) where
  abbrev pub operate : FileOp → M Vars (Unit {0})
  operate (open_file f_flags) = do
    _ ← (scull_fops k offset fuel).open_file (cdev_of offset dev) f_flags
    pure tt
  operate (read count f_pos) = elim (scull_fops k offset fuel).read [
    | none ↦ pure tt
    | some f ↦ do _ ← f count f_pos; pure tt
  ]
  operate (write count f_pos) = elim (scull_fops k offset fuel).write [
    | none ↦ pure tt
    | some f ↦ do _ ← f count f_pos; pure tt
  ]
  operate release = do _ ← (scull_fops k offset fuel).release; pure tt

  abbrev pub operate_all : List FileOp → M Vars (Unit {0})
  operate_all [] = pure tt
  operate_all (op ∷ ops) = operate op >> operate_all ops

  -- A call other than a write-only opening leaves the memory alone.
  operate-same :
      (op : FileOp) (w : World Vars)
      → is_write_only op ≡ false
      → After (λ _ w'. w'.vars.heap ≡ w.vars.heap) (operate op w)
  unfolding scull_open scull_read scull_write scull_release
  operate-same (open_file f_flags) w e = ground arith
  operate-same (read count f_pos) w e = ground arith
  operate-same (write count f_pos) w e = refl
  operate-same release w e = refl

  operate-write_only :
      (op : FileOp) (d : ScullDev) (ns : List Node) (w : World Vars)
      → is_write_only op ≡ true
      → w.vars.heap dev ≡ some (Block.device (record d { first = head_addr ns }))
      → Owned d.qset w.vars.heap ns
      → Distinct (footprint ns)
      → length ns < fuel
      → After (λ _ w'. w'.vars.heap ≡ emptied dev d ns w.vars.heap) (operate op w)
  operate-write_only (open_file f_flags) d ns w e at o dist h =
      ground (arith, scull_open_lem offset fuel f_flags dev d ns w at o dist h)
  operate-write_only (read count f_pos) d ns w e at o dist h = cc
  operate-write_only (write count f_pos) d ns w e at o dist h = cc
  operate-write_only release d ns w e at o dist h = cc

  -- The memory after further calls, once the device is empty.
  abbrev again : List FileOp → ScullDev → Heap → Heap
  again ops d g = if any_write_only ops then emptied dev (emptied_device d) [] g else g

  -- Nothing is left to be freed the next time.
  again_lem :
      (ops : List FileOp) (d : ScullDev) (h : Heap)
      → let g = store dev (Block.device (emptied_device d)) h in again ops d g ≡ g
  again_lem ops d h = elim (Bool-cases (any_write_only ops)) [
    | inl e ↦ rw e (store-store dev (Block.device (emptied_device d)) h)
    | inr e ↦ rw e refl
  ]

  -- Any sequence of openings, reads, writes and releases of a device whose list is well formed, with
  -- no address in it twice, on fuel above the length of the list, runs without a fault, so that no
  -- block is freed twice. If one of the openings is write-only, the memory is afterwards that with all
  -- blocks of the list freed and the device empty; if none is, the memory is as it was.
  pub scull_fops_lem :
      (ops : List FileOp) (d : ScullDev) (ns : List Node) (w : World Vars)
      → w.vars.heap dev ≡ some (Block.device (record d { first = head_addr ns }))
      → Owned d.qset w.vars.heap ns
      → Distinct (footprint ns)
      → length ns < fuel
      → After
          (λ _ w'.
            w'.vars.heap
            ≡ (if any_write_only ops then emptied dev d ns w.vars.heap else w.vars.heap))
          (operate_all ops w)
  scull_fops_lem [] d ns w at o dist h = refl
  scull_fops_lem (op ∷ ops) d ns w at o dist h = elim (Bool-cases (is_write_only op)) [
    | inl wr ↦
        After-bind (λ v. v.vars.heap ≡ emptied dev d ns w.vars.heap) _ w (operate op)
          (λ _. operate_all ops) (operate-write_only op d ns w wr at o dist h)
          (λ _ v e.
            let g = emptied dev d ns w.vars.heap in
            let here : v.vars.heap dev ≡ some (Block.device (emptied_device d)) =
              ap (λ g. g dev) e ∙ ground arith in
            After-map _ _ (operate_all ops v)
              (λ w' p.
                rw wr
                  (p ∙ ap (again ops d) e ∙ again_lem ops d (erase_all (footprint ns) w.vars.heap)))
              (scull_fops_lem ops (emptied_device d) [] v here tt tt (omega arith)))
    | inr no_wr ↦
        After-bind (λ v. v.vars.heap ≡ w.vars.heap) _ w (operate op) (λ _. operate_all ops)
          (operate-same op w no_wr)
          (λ _ v e.
            After-map _ _ (operate_all ops v)
              (λ w' p.
                rw no_wr (p ∙ ap (λ g. if any_write_only ops then emptied dev d ns g else g) e))
              (scull_fops_lem ops d ns v (ap (λ g. g dev) e ∙ at) (rw e o) dist h))
  ]
