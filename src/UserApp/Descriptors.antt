-- ===== src/UserApp/Descriptors.antt =====
-- The file and the mapping that dma_user/user_app.c opens and closes.
use char_driver_scull.Base.{
  negative, Bool-cases, inl, inr, ℕ, ◌≤◌, ◌<◌, ◌≡◌, false, some, List, ◌∷◌, arith, ltb, nonzero,
  unsigned, length,
}
use char_driver_scull.Kernel.{Kernel, Event, World, answered, note}
use char_driver_scull.Kernel.Interface.{Call}
use char_driver_scull.Kernel.Ledger.{Resource, Held, ledger}
use char_driver_scull.Kernel.Outcome.{Leaves}
use char_driver_scull.SimpleDma.{Vars, dma_buffer_size, start_transfer}
use char_driver_scull.SimpleDma.Ioctl.{simple_dma_ioctl_lem}
use char_driver_scull.UserApp.Mapping.{address, remapped, map_buffer-cases}
use char_driver_scull.UserApp.{App, message, transfer, main}
use char_driver_scull.UserApp.Flow.{stored, store_message_lem, length-write_message}

-- `munmap` of what `mmap` returned succeeds.
abbrev pub Unmaps : Kernel → Type 0
Unmaps k = (log : List Event) (p n : ℕ) → nonzero (k.status log (Call.sys_munmap p n)) ≡ false

module _ (k : Kernel) (size page_size : ℕ) (unmaps : Unmaps k) where
  transfer-Leaves :
      (fd p : ℕ) (w : World App) (rs : Held)
      → 0 < page_size
      → size ≡ dma_buffer_size page_size
      → length message ≤ size
      → length w.vars.driver.buffer ≡ size
      → ledger w.log ≡ some (Resource.user_map p ∷ Resource.descriptor fd ∷ rs)
      → Leaves rs (transfer k size page_size fd p w)
  unfolding transfer ledger
  transfer-Leaves fd p w rs h e m l held =
      let d : World Vars = record { log = w.log; vars = (stored k size page_size w.vars).driver } in
      let s = answered k (Call.sys_ioctl fd start_transfer) d in
      rw fits (
        ground (
          arith,
          unmaps s.log p size,
          store_message_lem size w l,
          length-write_message size w.vars.driver.buffer l m,
          simple_dma_ioctl_lem page_size start_transfer s,
        ))
    where
      fits : ltb size (length message) ≡ false
      fits = ground arith

  -- When `munmap` succeeds, with pages of at least one byte, and with a driver's buffer of the
  -- size that the program maps, in which the message fits, `main` does not fault and on each of
  -- its paths leaves no mapping and no open file.
  pub main-Leaves :
      (w : World App) (rs : Held)
      → 0 < page_size
      → size ≡ dma_buffer_size page_size
      → length message ≤ size
      → length w.vars.driver.buffer ≡ size
      → ledger w.log ≡ some rs
      → Leaves rs (main k size page_size w)
  unfolding main ledger
  main-Leaves w rs h e m l held =
      let o = answered k Call.sys_open w in
      let fd = unsigned (k.status w.log Call.sys_open) in
      let p = address k size page_size fd o in
      let mapped = note (Event.gave (Call.sys_mmap size fd) p) (remapped k size page_size fd o) in
      elim (Bool-cases (negative (k.status w.log Call.sys_open))) [
        | inl bad ↦ rw bad (ground (arith, held))
        | inr good ↦ rw good (
            map_buffer-cases k size page_size fd o (Leaves rs) (ground (arith, held, good))
              (ground (arith, held, good))
              (λ live. ground (arith, held, good, live, transfer-Leaves fd p mapped rs)))
      ]
