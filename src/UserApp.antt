-- ===== src/UserApp.antt =====
-- dma_user/user_app.c: the program that writes a message through the mapping, has it transferred by
-- the driver of dma_user/simple_dma_module.c, and prints the buffer.
use char_driver_scull.Base.{
  ℕ, ℤ, zero, suc, ◌+◌, ◌-◌, ◌^◌, Bool, true, false, List, [], ◌∷◌, ◌++◌, pos, ◌==◌, ltb,
  if◌then◌else◌, nonzero, negative, unsigned, length, replicate, drop, codes,
}
use char_driver_scull.Kernel.{
  Kernel, Event, note, World, Run, M, crash, pure, ◌>>=◌, ◌>>◌, get, modify, void, status, number,
}
use char_driver_scull.Kernel.Interface.{Call}
use char_driver_scull.SimpleDma.{Vars, simple_dma_mmap, simple_dma_ioctl, start_transfer}
pub mod Mapping
pub mod Flow
pub mod Descriptors
pub mod Session

-- The driver's variables, whose buffer is the memory that the program maps, and what was printed.
pub record App : Type 0 where
  pub driver : Vars
  pub printed : List (List ℕ)

-- The message with its terminator.
abbrev pub message : List ℕ
message = codes "Hello from user space!" ++ (0 ∷ [])

abbrev pub exit_success : ℤ
exit_success = pos 0

abbrev pub exit_failure : ℤ
exit_failure = pos 1

-- MAP_FAILED
abbrev pub map_failed : ℕ
map_failed = 2 ^ 64 - 1

-- What `printf` shows for `%s`: the bytes before the first zero.
pub c_string : List ℕ → List ℕ
c_string [] = []
c_string (zero ∷ xs) = []
c_string (suc x ∷ xs) = suc x ∷ c_string xs

-- `memset(p, 0, n)` and `memcpy(p, message, len)`; a write past the buffer is a fault.
pub write_message : (size : ℕ) → List ℕ → List ℕ
write_message size buf = message ++ drop (length message) (replicate size 0 ++ drop size buf)

pub store_message : (size : ℕ) → M App (Unit {0})
unfolding write_message
store_message size = do
  a ← get
  if ltb (length a.driver.buffer) size
      then crash
      else modify (λ a. record a {
        driver = record a.driver { buffer = write_message size a.driver.buffer };
      })

print_buffer : M App (Unit {0})
unfolding c_string
print_buffer = modify (λ a. record a { printed = c_string a.driver.buffer ∷ a.printed })

-- A function of the driver, run on the driver's part of the state.
abbrev pub in_driver : {A : Type 0} → M Vars A → M App A
in_driver m w = elim (m (record { log = w.log; vars = w.vars.driver })) [
  | Run.ok a w' ↦ Run.ok a (record { log = w'.log; vars = record w.vars { driver = w'.vars } })
  | Run.fault ↦ Run.fault
]

-- What the kernel will answer to a call, and the answer to a call when it is made.
abbrev chosen : Kernel → Call → M App ℕ
chosen k c w = Run.ok (k.number w.log c) w

abbrev pub answer : Call → ℕ → M App (Unit {0})
answer c p w = Run.ok tt (note (Event.gave c p) w)

-- `size` is DMA_BUFFER_SIZE of the program, and `page_size` is the driver's.
module _ (k : Kernel) (size page_size : ℕ) where
  -- The ends of the branches that give up.
  give_up_mapped : (fd p : ℕ) → M App ℤ
  give_up_mapped fd p = do
    _ ← status k (Call.sys_munmap p size)
    void (Call.sys_close fd)
    pure exit_failure

  -- Steps 5 and 6.
  finish : (fd p : ℕ) → M App ℤ
  unfolding print_buffer
  finish fd p = do
    print_buffer
    _ ← status k (Call.sys_munmap p size)
    void (Call.sys_close fd)
    pure exit_success

  -- Steps 3 and 4. The system call `ioctl` may fail by itself, before it reaches the driver.
  pub transfer : (fd p : ℕ) → M App ℤ
  unfolding give_up_mapped print_buffer finish
  transfer fd p = if ltb size (length message) then give_up_mapped fd p else do
    store_message size
    print_buffer
    sent ← status k (Call.sys_ioctl fd start_transfer)
    if negative sent then give_up_mapped fd p else do
      ret ← in_driver (simple_dma_ioctl page_size start_transfer)
      if negative ret then give_up_mapped fd p else finish fd p

  abbrev pub mapping_failed : (fd : ℕ) → M App ℤ
  mapping_failed fd = do
    answer (Call.sys_mmap size fd) map_failed
    void (Call.sys_close fd)
    pure exit_failure

  -- Step 2. The kernel chooses an address, or fails by itself; it then has the driver map its buffer
  -- there, and answers MAP_FAILED when the driver returns an error.
  pub map_buffer : (fd : ℕ) → M App ℤ
  map_buffer fd = do
    p ← chosen k (Call.sys_mmap size fd)
    if p == map_failed then mapping_failed fd else do
      ret ←
          in_driver
            (simple_dma_mmap k page_size (record { vm_start = p; vm_end = p + size; vm_pgoff = 0 }))
      if nonzero ret then mapping_failed fd else do answer (Call.sys_mmap size fd) p; transfer fd p

  pub main : M App ℤ
  main = do
    fd ← status k Call.sys_open
    if negative fd then pure exit_failure else map_buffer (unsigned fd)
