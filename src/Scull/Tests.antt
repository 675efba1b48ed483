-- ===== src/Scull/Tests.antt =====
-- The theorems on the scull devices, on examples.
use char_driver_scull.Base.{
  inl, false, ◌<◌, suc, ◌+◌, ℕ, pos, some, none, refl, List, [], ◌∷◌, ◌≡◌, arith, get_or, Option,
}
use char_driver_scull.Kernel.{Kernel, Event, World, Run}
use char_driver_scull.Kernel.Interface.{Call}
use char_driver_scull.Scull
use char_driver_scull.Scull.{Block, Heap, ScullDev}
use char_driver_scull.Scull.Frees.{Distinct, after_frees}
use char_driver_scull.Scull.Blocks.{Node, Owned, footprint}
use char_driver_scull.Scull.Trim.{scull_trim_lem}
use char_driver_scull.Scull.Open.{opened, scull_open_lem}
use char_driver_scull.Kernel.Driver.{After}
use char_driver_scull.Scull.Files.{FileOp, operate_all, emptied, scull_fops_lem}
use char_driver_scull.Scull.Session.{session}
use char_driver_scull.Scull.Restored.{WholeSession, scull_session-Restored}
use char_driver_scull.Scull.Ends.{Within, scull_trim-enough}
use char_driver_scull.Scull.Live.{SameMemory, Fresh, Initialised, in_use}
use char_driver_scull.Scull.Init.{scull_init-Initialised}
use char_driver_scull.Scull.Frees.{has}
use char_driver_scull.Tests.{kernel, start}

-- A device at 1 with one quantum set at 2, whose array at 3 has two quanta, and with one at 6 that
-- has no array.
abbrev device : ScullDev
device = record { first = 2; quantum = pos 4000; qset = pos 2; size = 8; access_key = 0 }

abbrev nodes : List Node
nodes =
    record { addr = 2; array = 3; quanta = 4 ∷ 5 ∷ [] }
    ∷ record { addr = 6; array = 0; quanta = [] }
    ∷ []

abbrev cells : List (Option Block)
cells =
    none
    ∷ some (Block.device device)
    ∷ some (Block.node (record { array = 3; next = 6 }))
    ∷ some (Block.pointers (4 ∷ 5 ∷ []))
    ∷ some Block.quantum
    ∷ some Block.quantum
    ∷ some (Block.node (record { array = 0; next = 0 }))
    ∷ []

abbrev heap : Heap
heap p = get_or cells p none

abbrev memory : World Scull.Vars
memory = start (record { devno = 0; scull_devices = []; heap = heap; private_data = 0 })

nodes-Owned : Owned (pos 2) heap nodes
nodes-Owned = (
  refl,
  refl,
  (λ _. (refl, refl, ((λ _. refl), ((λ _. refl), tt)))),
  (refl, refl, (λ e. absurd (ground (arith, e))), tt),
)

nodes-Distinct : Distinct (footprint nodes)
nodes-Distinct = (refl, (refl, (refl, (refl, (refl, tt)))))

scull_trim_lem_example :
    Scull.scull_trim 3 1 memory
    ≡ Run.ok (pos 0) (
        let w' = after_frees (4 ∷ 5 ∷ 3 ∷ 2 ∷ 6 ∷ []) memory in
        record w' {
          vars =
              Scull.in_heap
                (Scull.store 1 (
                  Block.device (record {
                    first = 0;
                    quantum = pos 4000;
                    qset = pos 1000;
                    size = 0;
                    access_key = 0;
                  })))
                w'.vars;
        })
scull_trim_lem_example =
    scull_trim_lem 3 1 device nodes memory refl nodes-Owned nodes-Distinct (omega arith)

-- Opened with `O_WRONLY`.
scull_open_lem_example :
    Scull.scull_open 64 3 65 1 memory ≡ Run.ok (pos 0) (opened 1 1 device nodes memory)
scull_open_lem_example =
    scull_open_lem 64 3 1 1 device nodes memory refl nodes-Owned nodes-Distinct (omega arith)

-- A device whose list is no address of a block.
abbrev junk : World Scull.Vars
junk =
    start (record memory.vars {
      heap = Scull.store 1 (Block.device (record device { first = 99 })) heap;
    })

abbrev total : List ℕ → ℕ
total [] = 0
total (x ∷ xs) = x + total xs

abbrev above_all : List Event → Call → ℕ
above_all log (Call.kmalloc n) = suc (total (in_use log))
above_all log _ = 5

-- `kmalloc` gives an address above all that are in use.
abbrev allocating : Kernel
allocating = record kernel { number = above_all }

has-above : (xs : List ℕ) (a : ℕ) → total xs < a → has a xs ≡ false
has-above [] a h = refl
has-above (x ∷ xs) a h = ground (arith, has-above xs a (omega arith))

allocating-Fresh : Fresh allocating
allocating-Fresh log n =
    ground (arith, has-above (in_use log) (suc (total (in_use log))) (omega arith))

-- Before the initialisation.
abbrev empty : World Scull.Vars
empty =
    start
      (record { devno = 0; scull_devices = 0 ∷ 0 ∷ 0 ∷ 0 ∷ []; heap = λ p. none; private_data = 0 })

scull_init-Initialised_example :
    Initialised (λ p. device) (λ p. none) (Scull.scull_init allocating 64 (λ p. device) empty)
scull_init-Initialised_example =
    scull_init-Initialised allocating 64 allocating-Fresh (λ p. device) empty refl (λ a off. refl)

-- Read, then opened with `O_WRONLY` and closed.
scull_fops_lem_example :
    After
      (λ _ w'. w'.vars.heap ≡ emptied 1 device nodes heap)
      (operate_all kernel 64 3 1
        (FileOp.read 22 0 ∷ FileOp.open_file 1 ∷ FileOp.release ∷ FileOp.open_file 1 ∷ [])
        memory)
scull_fops_lem_example =
    scull_fops_lem kernel 64 3 1
      (FileOp.read 22 0 ∷ FileOp.open_file 1 ∷ FileOp.release ∷ FileOp.open_file 1 ∷ []) device
      nodes memory refl nodes-Owned nodes-Distinct (omega arith)

-- With NULL pointers in the memory that `kmalloc` gives.
abbrev cleared : ScullDev
cleared = record device { first = 0 }

-- The device with minor number 2 is written over, read and closed; there is none with number 9.
abbrev uses : List (ℕ × FileOp)
uses =
    (2, FileOp.open_file 1)
    ∷ (2, FileOp.read 22 0)
    ∷ (9, FileOp.open_file 1)
    ∷ (2, FileOp.release)
    ∷ []

scull_session-Restored_example :
    After
      (λ ret w'.
        SameMemory w'.vars.heap (λ p. none) × WholeSession allocating 64 1 empty.log ret w'.log)
      (session allocating 64 1 (λ p. cleared) uses empty)
scull_session-Restored_example =
    scull_session-Restored allocating 64 1 (omega arith) allocating-Fresh (λ p. cleared) uses empty
      (inl (λ p. refl)) refl (λ a off. refl)

-- A device at 1 whose one quantum set, at 2, is its own successor.
abbrev circular : World Scull.Vars
circular = start (record memory.vars {
  heap =
      Scull.store 1 (Block.device device)
        (Scull.store 2 (Block.node (record { array = 0; next = 2 })) (λ p. none));
})

circular-Within : Within (1 ∷ 2 ∷ []) circular.vars.heap
circular-Within a e = ground (arith, e)

scull_trim-enough_example : Scull.scull_trim (3 + 100) 1 circular ≡ Scull.scull_trim 3 1 circular
scull_trim-enough_example =
    scull_trim-enough (1 ∷ 2 ∷ []) 3 100 1 circular circular-Within (omega arith)
