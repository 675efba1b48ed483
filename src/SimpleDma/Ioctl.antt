-- ===== src/SimpleDma/Ioctl.antt =====
-- `simple_dma_ioctl` of dma_user/simple_dma_module.c on every command.
use mathlib.Core.List.{reverse, append-nil}
use char_driver_scull.Base.{
  ℕ, suc, ◌-◌, ◌<◌, ◌≡◌, refl, pos, some, [], arith, ◌==◌, if◌then◌else◌, length,
}
use char_driver_scull.Kernel.{World, Run}
use char_driver_scull.SimpleDma.{
  Vars, start_transfer, efault, enotty, dma_buffer_size, reverse_loop, reverse_buffer,
  simple_dma_ioctl,
}
use char_driver_scull.SimpleDma.Reverse.{reverse_loop_lem}

abbrev pub reversed : World Vars → World Vars
reversed w = record w { vars = record w.vars { buffer = reverse w.vars.buffer } }

reverse_buffer_lem :
    (page_size : ℕ) (w : World Vars)
    → 0 < page_size
    → length w.vars.buffer ≡ dma_buffer_size page_size
    → reverse_buffer page_size w ≡ Run.ok (pos 0) (reversed w)
unfolding reverse_buffer
reverse_buffer_lem page_size w h e =
    let n = dma_buffer_size page_size in
    let loop : reverse_loop (suc n) 0 (n - 1) w.vars.buffer ≡ some (reverse w.vars.buffer) =
      simp append-nil at
        (reverse_loop_lem (suc n) 0 (n - 1) [] w.vars.buffer [] refl (omega arith) (omega arith)) in
    ground (arith, loop)

-- With pages of at least one byte and a buffer of the allocated size, `simple_dma_ioctl`
-- reverses the whole buffer and returns 0 for the start command, returns -EFAULT for it when
-- there is no buffer, and returns -ENOTTY for any other command; in these two cases nothing
-- changes.
pub simple_dma_ioctl_lem :
    (page_size cmd : ℕ) (w : World Vars)
    → 0 < page_size
    → length w.vars.buffer ≡ dma_buffer_size page_size
    → simple_dma_ioctl page_size cmd w ≡ (
        if cmd == start_transfer
        then (if w.vars.dma_buffer_virt == 0 then Run.ok efault w else Run.ok (pos 0) (reversed w))
        else Run.ok enotty w)
unfolding simple_dma_ioctl
simple_dma_ioctl_lem page_size cmd w h e = ground (arith, reverse_buffer_lem page_size w h e)
