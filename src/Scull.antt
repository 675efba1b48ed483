-- ===== src/Scull.antt =====
-- main.c, main.h, util.c and util.h: the scull character devices.
use char_driver_scull.Base.{
  ℕ, ℤ, zero, suc, ◌+◌, ◌-◌, ◌*◌, ◌%◌, ◌/◌, ◌^◌, Bool, true, false, Option, none, some, List, [],
  ◌∷◌, pos, negsuc, ◌==◌, ltb, if◌then◌else◌, nonzero, negative, length, get_or, set, get_elem?,
  codes,
}
use char_driver_scull.Kernel.{
  Kernel, Event, World, Run, M, crash, pure, ◌>>=◌, ◌>>◌, get, modify, note, void, status, number,
  out,
}
use char_driver_scull.Kernel.File.{FileOperations}
use char_driver_scull.Kernel.Interface.{Call, enomem}
mod Memory
pub use Memory.*
pub mod Frees
pub mod Blocks
pub mod Trim
pub mod Shrinks
pub mod Ends
pub mod Open
pub mod Files
pub mod Devices
pub mod Live
pub mod Init
pub mod Loaded
pub mod Session
pub mod Silent
pub mod Registered
pub mod Restored
mod Tests

abbrev pub efault : ℤ
efault = negsuc 13

abbrev pub base_minor : ℕ
base_minor = 0

abbrev pub num_devices : ℕ
num_devices = 4

-- SCULL_QUANTUM_SIZE
abbrev pub quantum_size : ℤ
quantum_size = pos 4000

-- SCULL_QSET_SIZE
abbrev pub qset_size : ℤ
qset_size = pos 1000

-- The rounds of `for (int i = 0; i < n; i++)`.
abbrev pub rounds : ℤ → ℕ
rounds (pos n) = n
rounds (negsuc n) = 0

-- `for (; i < qset; i++) kfree(dptr->data[i]);` with `n` rounds left.
pub free_quanta : (n i array : ℕ) → M Vars (Unit {0})
free_quanta zero i array = pure tt
free_quanta (suc n) i array = do b ← load array; p ← entry i b; kfree p; free_quanta n (i + 1) array

-- The block of the loop's body under `if (dptr->data)`.
pub free_array : (qset : ℤ) (dptr : ℕ) → ScullQset → M Vars (Unit {0})
unfolding free_quanta
free_array qset dptr q = do
  free_quanta (rounds qset) 0 q.array
  kfree q.array
  assign dptr (Block.node (record q { array = 0 }))

-- The loop over the list of quantum sets, on fuel. `none` of the fuel left is a fault.
pub trim_loop : (fuel : ℕ) (qset : ℤ) (dptr : ℕ) → M Vars (Unit {0})
trim_loop zero qset dptr = crash
trim_loop (suc fuel) qset dptr = if dptr == 0 then pure tt else do
  b ← load dptr
  q ← as_node b
  if q.array == 0 then pure tt else free_array qset dptr q
  kfree dptr
  trim_loop fuel qset q.next

-- `fuel` bounds the length of the list.
pub scull_trim : (fuel dev : ℕ) → M Vars ℤ
unfolding trim_loop
scull_trim fuel dev = do
  b ← load dev
  d ← as_device b
  trim_loop fuel d.qset d.first
  assign dev
      (Block.device (record d { first = 0; quantum = quantum_size; qset = qset_size; size = 0 }))
  pure (pos 0)

-- `cdev_offset` is the offset of the field `cdev` in `struct scull_dev`.
module _ (cdev_offset : ℕ) where
  -- `&dev->cdev`, and `container_of` back.
  abbrev pub cdev_of : ℕ → ℕ
  cdev_of dev = dev + cdev_offset

  abbrev pub container_of : ℕ → ℕ
  container_of cdev = cdev - cdev_offset

  -- `O_ACCMODE` is 3 and `O_WRONLY` is 1.
  pub scull_open : (fuel i_cdev f_flags : ℕ) → M Vars ℤ
  scull_open fuel i_cdev f_flags = do
    let dev = container_of i_cdev
    modify (λ v. record v { private_data = dev })
    if f_flags % 4 == 1 then (do _ ← scull_trim fuel dev; pure (pos 0)) else pure (pos 0)

unfoldable pub scull_release : M Vars ℤ
scull_release = pure (pos 0)

abbrev pub funny_thing_to_print : List ℕ
funny_thing_to_print = codes "Something funny haha\n"

module _ (k : Kernel) where
  -- The string and its terminator are copied, whatever `count` and `*f_pos` are.
  unfoldable pub scull_read : (count f_pos : ℕ) → M Vars ℤ
  scull_read count f_pos = do
    let len = length funny_thing_to_print + 1
    left ← number k (Call.copy_to_user len)
    if left == 0 then pure (pos len) else pure efault

  unfoldable pub scull_write : (count f_pos : ℕ) → M Vars ℤ
  scull_write count f_pos = pure (pos 0)

  module _ (cdev_offset : ℕ) where
    -- `MKDEV(MAJOR(devno), index + BASE_MINOR)`, with 20 bits of minor number. An error is printed.
    pub scull_setup_cdev : (dev index : ℕ) → M Vars (Unit {0})
    scull_setup_cdev dev index = do
      v ← get
      let devno_sp = v.devno / 2 ^ 20 * 2 ^ 20 + (index + base_minor)
      void (Call.cdev_init (cdev_of cdev_offset dev))
      _ ← status k (Call.cdev_add (cdev_of cdev_offset dev) devno_sp 1)
      pure tt

    -- The loop of the label `fail` and of `scull_exit`, with `n` devices left.
    pub free_devices : (n i : ℕ) → M Vars (Unit {0})
    free_devices zero i = pure tt
    free_devices (suc n) i = do
      v ← get
      let dev = get_or v.scull_devices i 0
      if dev == 0 then pure tt else do void (Call.cdev_del (cdev_of cdev_offset dev)); kfree dev
      free_devices n (i + 1)

    fail : M Vars ℤ
    unfolding free_devices
    fail = do
      free_devices num_devices 0
      v ← get
      void (Call.unregister_chrdev_region v.devno num_devices)
      pure enomem

    -- The loop of `scull_init`. `junk` is what the memory of `kmalloc` holds.
    pub setup_devices : (junk : ℕ → ScullDev) (n i : ℕ) → M Vars ℤ
    setup_devices junk zero i = pure (pos 0)
    setup_devices junk (suc n) i = do
      p ← number k (Call.kmalloc (cdev_offset + k.sizeof_cdev))
      modify (λ v. record v { scull_devices = set v.scull_devices i p })
      if p == 0 then fail else do
        modify (in_heap (store p (Block.device (junk p))))
        scull_setup_cdev p (i + base_minor)
        setup_devices junk n (i + 1)

    pub scull_init : (junk : ℕ → ScullDev) → M Vars ℤ
    scull_init junk = do
      result ← status k (Call.alloc_chrdev_region base_minor num_devices)
      devno ← out k (Call.alloc_chrdev_region base_minor num_devices)
      modify (λ v. record v { devno = devno })
      if nonzero result then pure result else setup_devices junk num_devices 0

    pub scull_exit : M Vars (Unit {0})
    unfolding free_devices
    scull_exit = do
      v ← get
      void (Call.unregister_chrdev_region v.devno num_devices)
      free_devices num_devices 0

abbrev pub scull_fops : (k : Kernel) (cdev_offset fuel : ℕ) → FileOperations Vars (Unit {0})
scull_fops k cdev_offset fuel = record {
  open_file = scull_open cdev_offset fuel;
  release = scull_release;
  read = some (scull_read k);
  write = some (scull_write k);
  mmap = none;
  unlocked_ioctl = none;
}
