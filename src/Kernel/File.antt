-- ===== src/Kernel/File.antt =====
-- The kernel's `struct file_operations`: the functions that it calls on a file of a driver.
use char_driver_scull.Base.{ℕ, ℤ, Option}
use char_driver_scull.Kernel.{M}

-- `none` is a NULL entry. `Area` is what the driver reads of a memory area to map.
pub record FileOperations (S Area : Type 0) : Type 0 where
  pub open_file : (i_cdev f_flags : ℕ) → M S ℤ
  pub release : M S ℤ
  pub read : Option ((count f_pos : ℕ) → M S ℤ)
  pub write : Option ((count f_pos : ℕ) → M S ℤ)
  pub mmap : Option (Area → M S ℤ)
  pub unlocked_ioctl : Option ((cmd : ℕ) → M S ℤ)
