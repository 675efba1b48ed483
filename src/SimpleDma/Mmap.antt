-- ===== src/SimpleDma/Mmap.antt =====
-- `simple_dma_mmap` of dma_user/simple_dma_module.c: which requests reach the kernel.
use char_driver_scull.Base.{
  ℕ, ◌+◌, ◌-◌, ◌%◌, ◌≤◌, ◌<◌, ◌^◌, ◌≡◌, pos, arith, negative, if◌then◌else◌, ltb, ◌==◌, ◌||◌, not,
}
use char_driver_scull.Kernel.{Kernel, World, Run, answered}
use char_driver_scull.Kernel.Interface.{Call}
use char_driver_scull.SimpleDma.{Vars, Vma, einval, dma_buffer_size, simple_dma_mmap}

-- For an area whose end is not before its start and below 2 ^ 64, `simple_dma_mmap` refuses a
-- length above that of the buffer, or an offset, with -EINVAL and without a call; any other
-- request is passed on once, for exactly its length, and the result is the kernel's error code,
-- or 0 if it gives none.
pub simple_dma_mmap_lem :
    (k : Kernel) (page_size : ℕ) (vma : Vma) (w : World Vars)
    → vma.vm_start ≤ vma.vm_end
    → vma.vm_end < 2 ^ 64
    → let len : ℕ = vma.vm_end - vma.vm_start in
      let c =
        Call.dma_mmap_coherent w.vars.dma_device w.vars.dma_buffer_virt w.vars.dma_buffer_phys
          len in
      let z = k.status w.log c in
      simple_dma_mmap k page_size vma w ≡ (
        if ltb (dma_buffer_size page_size) len || not (vma.vm_pgoff == 0)
        then Run.ok einval w
        else Run.ok (if negative z then z else pos 0) (answered k c w))
unfolding simple_dma_mmap
simple_dma_mmap_lem k page_size vma w h b =
    let e : (vma.vm_end + 2 ^ 64 - vma.vm_start) % 2 ^ 64 ≡ vma.vm_end - vma.vm_start =
      omega arith in
    rw (e, simple_dma_mmap) (ground arith)
