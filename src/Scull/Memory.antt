-- ===== src/Scull/Memory.antt =====
-- The structures of util.h, the memory that they stand in, and the variables of main.c.
use char_driver_scull.Base.{ℕ, ℤ, Option, none, some, List, ◌==◌, if◌then◌else◌, get_elem?}
use char_driver_scull.Kernel.{Event, Run, M, crash, pure, note}
use char_driver_scull.Kernel.Interface.{Call}

-- `struct scull_qset`; `array` is its field `data`.
pub record ScullQset : Type 0 where
  pub array : ℕ
  pub next : ℕ

-- `struct scull_dev`; `first` is its field `data`. The semaphore is not used by the sources.
pub record ScullDev : Type 0 where
  pub first : ℕ
  pub quantum : ℤ
  pub qset : ℤ
  pub size : ℕ
  pub access_key : ℕ

-- What an allocated block of kernel memory holds.
pub data Block : Type 0 where
  device : ScullDev → Block
  node : ScullQset → Block
  pointers : List ℕ → Block
  quantum : Block

abbrev pub Heap : Type 0
Heap = ℕ → Option Block

-- The global variables, the allocated memory, and `filp->private_data` of the file at hand.
pub record Vars : Type 0 where
  pub devno : ℕ
  pub scull_devices : List ℕ
  pub heap : Heap
  pub private_data : ℕ

abbrev pub store : ℕ → Block → Heap → Heap
store p b h q = if p == q then some b else h q

-- The memory without the block at `p`, if `p` is not NULL.
abbrev pub erase : ℕ → Heap → Heap
erase p h q = if p == 0 then h q else (if p == q then none else h q)

abbrev pub in_heap : (Heap → Heap) → Vars → Vars
in_heap f v = record v { heap = f v.heap }

-- A read through a pointer to no block is a fault.
abbrev pub load : ℕ → M Vars Block
load p w = elim (w.vars.heap p) [ none ↦ Run.fault | some b ↦ Run.ok b w ]

-- A store through a pointer to no block is a fault.
abbrev pub assign : ℕ → Block → M Vars (Unit {0})
assign p b w = elim (w.vars.heap p) [
  | none ↦ Run.fault
  | some old ↦ Run.ok tt (record w { vars = in_heap (store p b) w.vars })
]

-- Freeing NULL does nothing; freeing what is not allocated is a fault.
abbrev pub kfree : ℕ → M Vars (Unit {0})
kfree p w =
    let w' = note (Event.ran (Call.kfree p)) (record w { vars = in_heap (erase p) w.vars }) in
    if p == 0
    then Run.ok tt w'
    else elim (w.vars.heap p) [ none ↦ Run.fault | some b ↦ Run.ok tt w' ]

abbrev pub as_device : Block → M Vars ScullDev
as_device (Block.device d) = pure d
as_device (Block.node q) = crash
as_device (Block.pointers ps) = crash
as_device Block.quantum = crash

abbrev pub as_node : Block → M Vars ScullQset
as_node (Block.device d) = crash
as_node (Block.node q) = pure q
as_node (Block.pointers ps) = crash
as_node Block.quantum = crash

-- `((void **)p)[i]`
abbrev pub entry : ℕ → Block → M Vars ℕ
entry i (Block.pointers ps) = elim (get_elem? ps i) [ none ↦ crash | some p ↦ pure p ]
entry i (Block.device d) = crash
entry i (Block.node q) = crash
entry i Block.quantum = crash
