-- ===== src/SimpleDma.antt =====
-- dma_user/simple_dma_module.c: a character device that maps a DMA buffer into user space.
use char_driver_scull.Base.{
  ℕ, ℤ, zero, suc, ◌+◌, ◌-◌, ◌*◌, ◌%◌, ◌^◌, Bool, true, false, not, ◌&&◌, Option, none, some, List,
  [], ◌∷◌, pos, negsuc, ◌==◌, ltb, if◌then◌else◌, negative, replicate, get_elem?, set,
}
use char_driver_scull.Kernel.{
  Kernel, World, Run, M, crash, pure, ◌>>=◌, ◌>>◌, get, modify, void, status, number, out,
}
use char_driver_scull.Kernel.File.{FileOperations}
use char_driver_scull.Kernel.Interface.{Call}
use char_driver_scull.Kernel.Ledger.{is_err}
pub mod Reverse
pub mod Ioctl
pub mod Mmap
pub mod Resources
pub mod Settled
pub mod Session
pub mod Tests

-- The static variables; `buffer` holds the bytes behind `dma_buffer_virt`.
pub record Vars : Type 0 where
  pub simple_dma_dev_t : ℕ
  pub simple_dma_cdev : ℕ
  pub simple_dma_class : ℕ
  pub dma_buffer_virt : ℕ
  pub dma_buffer_phys : ℕ
  pub dma_device : ℕ
  pub buffer : List ℕ

-- The fields of `struct vm_area_struct` that are read.
pub record Vma : Type 0 where
  pub vm_start : ℕ
  pub vm_end : ℕ
  pub vm_pgoff : ℕ

abbrev pub einval : ℤ
einval = negsuc 21

abbrev pub efault : ℤ
efault = negsuc 13

abbrev pub enotty : ℤ
enotty = negsuc 24

-- `_IO('s', 1)`
abbrev pub start_transfer : ℕ
start_transfer = b's' * 256 + 1

-- DMA_BUFFER_SIZE
abbrev pub dma_buffer_size : (page_size : ℕ) → ℕ
dma_buffer_size page_size = 4 * page_size

-- `(int)PTR_ERR(p)`: the low 32 bits of the pointer.
abbrev pub ptr_err : ℕ → ℤ
ptr_err p = if ltb (p % 2 ^ 32) (2 ^ 31) then pos (p % 2 ^ 32) else negsuc (2 ^ 32 - 1 - p % 2 ^ 32)

unfoldable pub simple_dma_open : M Vars ℤ
simple_dma_open = pure (pos 0)

unfoldable pub simple_dma_release : M Vars ℤ
simple_dma_release = pure (pos 0)

-- `temp = buf[i]; buf[i] = buf[j]; buf[j] = temp;` An index out of range is a fault.
pub swap : (i j : ℕ) → List ℕ → Option (List ℕ)
swap i j buf = elim (get_elem? buf i) [
  | none ↦ none
  | some a ↦ elim (get_elem? buf j) [ none ↦ none | some b ↦ some (set (set buf i b) j a) ]
]

-- `for (; i < j; ++i, --j)`, on fuel.
pub reverse_loop : (fuel i j : ℕ) → List ℕ → Option (List ℕ)
unfolding swap
reverse_loop zero i j buf = none
reverse_loop (suc fuel) i j buf = elim (ltb i j) [
  | true ↦ elim (swap i j buf) [ none ↦ none | some buf' ↦ reverse_loop fuel (i + 1) (j - 1) buf' ]
  | false ↦ some buf
]

module _ (page_size : ℕ) where
  -- The simulated transfer.
  pub reverse_buffer : M Vars ℤ
  reverse_buffer w =
      elim (reverse_loop (suc (dma_buffer_size page_size)) 0 (dma_buffer_size page_size - 1)
        w.vars.buffer) [
          | none ↦ Run.fault
          | some buf ↦ Run.ok (pos 0) (record w { vars = record w.vars { buffer = buf } })
        ]

  pub simple_dma_ioctl : (cmd : ℕ) → M Vars ℤ
  simple_dma_ioctl cmd =
      if cmd == start_transfer
      then (do v ← get; if v.dma_buffer_virt == 0 then pure efault else reverse_buffer)
      else pure enotty

module _ (k : Kernel) (page_size : ℕ) where
  unfoldable pub simple_dma_mmap : Vma → M Vars ℤ
  simple_dma_mmap vma = do
    let size = (vma.vm_end + 2 ^ 64 - vma.vm_start) % 2 ^ 64
    if ltb (dma_buffer_size page_size) size
        then pure einval
        else if vma.vm_pgoff == 0
        then (do
          v ← get
          ret ←
              status k
                (Call.dma_mmap_coherent v.dma_device v.dma_buffer_virt v.dma_buffer_phys size)
          if negative ret then pure ret else pure (pos 0))
        else pure einval

  unregister_chrdev : ℤ → M Vars ℤ
  unregister_chrdev ret = do
    v ← get
    void (Call.unregister_chrdev_region v.simple_dma_dev_t 1)
    pure ret

  destroy_class : ℤ → M Vars ℤ
  unfolding unregister_chrdev
  destroy_class ret = do
    v ← get
    void (Call.class_destroy v.simple_dma_class)
    unregister_chrdev ret

  del_cdev : ℤ → M Vars ℤ
  unfolding destroy_class
  del_cdev ret = do v ← get; void (Call.cdev_del v.simple_dma_cdev); destroy_class ret

  -- Step 4: the buffer is optional.
  allocate : M Vars (Unit {0})
  allocate = do
    v ← get
    let c = Call.dma_alloc_coherent v.dma_device (dma_buffer_size page_size)
    p ← number k c
    phys ← out k c
    modify (λ v. record v {
      dma_buffer_virt = p;
      dma_buffer_phys = phys;
      buffer = if p == 0 then v.buffer else replicate (dma_buffer_size page_size) 0;
    })

  -- Steps 5 and 6. The code of a failed `device_create` is taken from the class.
  add_device : M Vars ℤ
  unfolding del_cdev destroy_class
  add_device = do
    v ← get
    void (Call.cdev_init v.simple_dma_cdev)
    ret ← status k (Call.cdev_add v.simple_dma_cdev v.simple_dma_dev_t 1)
    if negative ret then destroy_class ret else do
      node ← number k (Call.device_create v.simple_dma_class v.simple_dma_dev_t)
      if is_err node then del_cdev (ptr_err v.simple_dma_class) else pure (pos 0)

  -- Step 3.
  find_device : M Vars ℤ
  find_device = do
    v ← get
    device ← number k (Call.class_find_device v.simple_dma_class)
    modify (λ v. record v { dma_device = device })
    if device == 0 then pure tt else allocate
    add_device

  pub simple_dma_init : M Vars ℤ
  unfolding unregister_chrdev
  simple_dma_init = do
    ret ← status k (Call.alloc_chrdev_region 0 1)
    if negative ret then pure ret else do
      dev_t ← out k (Call.alloc_chrdev_region 0 1)
      cls ← number k Call.class_create
      modify (λ v. record v { simple_dma_dev_t = dev_t; simple_dma_class = cls })
      if is_err cls then unregister_chrdev (ptr_err cls) else find_device

  pub simple_dma_exit : M Vars (Unit {0})
  simple_dma_exit = do
    v ← get
    void (Call.device_destroy v.simple_dma_class v.simple_dma_dev_t)
    void (Call.cdev_del v.simple_dma_cdev)
    void (Call.class_destroy v.simple_dma_class)
    void (Call.unregister_chrdev_region v.simple_dma_dev_t 1)
    let free = λ (device : ℕ). void (
        Call.dma_free_coherent device (dma_buffer_size page_size) v.dma_buffer_virt
          v.dma_buffer_phys)
    if not (v.dma_buffer_virt == 0) && not (v.dma_device == 0)
        then free v.dma_device
        else if not (v.dma_buffer_virt == 0)
        then free 0
        else pure tt

abbrev pub simple_dma_fops : (k : Kernel) (page_size : ℕ) → FileOperations Vars Vma
simple_dma_fops k page_size = record {
  open_file = λ i_cdev f_flags. simple_dma_open;
  release = simple_dma_release;
  read = none;
  write = none;
  mmap = some (simple_dma_mmap k page_size);
  unlocked_ioctl = some (simple_dma_ioctl page_size);
}
