-- ===== src/Scull/Open.antt =====
-- `scull_open` of main.c: the device of an inode, emptied when it is opened for writing only.
use char_driver_scull.Base.{
  ℕ, ◌<◌, ◌≡◌, pos, none, some, arith, ◌==◌, ◌%◌, if◌then◌else◌, length, List, false, suc,
}
use char_driver_scull.Kernel.{World, Run}
use char_driver_scull.Scull.{
  Vars, Block, ScullDev, store, in_heap, cdev_of, container_of, scull_open, scull_trim, trim_loop,
  quantum_size, qset_size,
}
use char_driver_scull.Scull.Frees.{Distinct, after_frees}
use char_driver_scull.Scull.Blocks.{Node, head_addr, footprint, Owned}
use char_driver_scull.Scull.Trim.{scull_trim_lem}

abbrev pub with_private : ℕ → World Vars → World Vars
with_private dev w = record w { vars = record w.vars { private_data = dev } }

-- The world after an opening of the device `d` at `dev`, whose list is `ns`.
abbrev pub opened : (f_flags dev : ℕ) → ScullDev → List Node → World Vars → World Vars
opened f_flags dev d ns w =
    if f_flags % 4 == 1
    then (let w' = after_frees (footprint ns) (with_private dev w) in
        record w' {
          vars =
              in_heap
                (store dev (
                  Block.device
                    (record d { first = 0; quantum = quantum_size; qset = qset_size; size = 0 })))
                w'.vars;
        })
    else with_private dev w

-- `container_of` inverts `&dev->cdev`, whatever the offset of the field is.
container_of-cdev_of : (offset dev : ℕ) → container_of offset (cdev_of offset dev) ≡ dev
container_of-cdev_of offset dev = omega arith

-- `scull_open`, with the inode of a device whose list is well formed, with no address in it
-- twice, on fuel above the length of the list, returns 0 and leaves that device in
-- `private_data`. Opened write-only, the device's blocks are each freed once and it is left
-- empty with the default sizes; with every other mode, nothing else changes.
pub scull_open_lem :
    (offset fuel f_flags dev : ℕ) (d : ScullDev) (ns : List Node) (w : World Vars)
    → w.vars.heap dev ≡ some (Block.device (record d { first = head_addr ns }))
    → Owned d.qset w.vars.heap ns
    → Distinct (footprint ns)
    → length ns < fuel
    → scull_open offset fuel (cdev_of offset dev) f_flags w
      ≡ Run.ok (pos 0) (opened f_flags dev d ns w)
unfolding scull_open
scull_open_lem offset fuel f_flags dev d ns w at o dist h = ground (
  arith,
  container_of-cdev_of offset dev,
  scull_trim_lem fuel dev d ns (with_private dev w) at o dist h,
)

-- Opened write-only, a device whose list begins at an address, not NULL, where no block is, as
-- one that the memory of `kmalloc` may hold, makes `scull_open` read memory that is not
-- allocated.
pub scull_open-faults :
    (offset fuel f_flags dev : ℕ) (d : ScullDev) (w : World Vars)
    → f_flags % 4 ≡ 1
    → w.vars.heap dev ≡ some (Block.device d)
    → (d.first == 0) ≡ false
    → w.vars.heap d.first ≡ none
    → scull_open offset (suc fuel) (cdev_of offset dev) f_flags w ≡ Run.fault
unfolding scull_open scull_trim trim_loop
scull_open-faults offset fuel f_flags dev d w wr at nz gone =
    ground (arith, container_of-cdev_of offset dev)
