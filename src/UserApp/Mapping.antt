-- ===== src/UserApp/Mapping.antt =====
-- The ways that the mapping of dma_user/user_app.c can go.
use char_driver_scull.Base.{
  ℕ, ℤ, pos, negsuc, ◌+◌, ◌-◌, ◌%◌, ◌^◌, ◌≡◌, refl, true, false, arith, ◌==◌, ltb, if◌then◌else◌,
  nonzero, negative, Bool-cases, inl, inr,
}
use char_driver_scull.Kernel.{Kernel, ◌>>=◌, Event, World, Run, answered, note}
use char_driver_scull.Kernel.Interface.{Call}
use char_driver_scull.SimpleDma.{dma_buffer_size, einval, simple_dma_mmap}
use char_driver_scull.UserApp.{App, in_driver, map_failed, mapping_failed, transfer, map_buffer}

negative-nonzero : (i : ℤ) → negative i ≡ true → nonzero i ≡ true
negative-nonzero (pos n) h = cc
negative-nonzero (negsuc n) h = refl

-- What `simple_dma_mmap` returns for a mapping at `p`.
mapped_by_driver :
    (k : Kernel) (size page_size p : ℕ) (w : World App)
    → let d = w.vars.driver in
      let len = (p + size + 2 ^ 64 - p) % 2 ^ 64 in
      let c = Call.dma_mmap_coherent d.dma_device d.dma_buffer_virt d.dma_buffer_phys len in
      in_driver
        (simple_dma_mmap k page_size (record { vm_start = p; vm_end = p + size; vm_pgoff = 0 }))
        w
      ≡ (if ltb (dma_buffer_size page_size) len
          then Run.ok einval w
          else if negative (k.status w.log c)
          then Run.ok (k.status w.log c) (answered k c w)
          else Run.ok (pos 0) (answered k c w))
unfolding simple_dma_mmap
mapped_by_driver k size page_size p w = ground arith

module _ (k : Kernel) (size page_size fd : ℕ) (w : World App) where
  -- The address that the kernel chooses, and the world after the driver's mapping.
  abbrev pub address : ℕ
  address = k.number w.log (Call.sys_mmap size fd)

  abbrev pub remapped : World App
  remapped =
      let d = w.vars.driver in
      let len = (address + size + 2 ^ 64 - address) % 2 ^ 64 in
      answered k (Call.dma_mmap_coherent d.dma_device d.dma_buffer_virt d.dma_buffer_phys len) w

  -- What holds of a mapping that fails, with the driver asked or not, and of a transfer at the
  -- address after the driver's mapping, holds of step 2.
  pub map_buffer-cases :
      (P : Run App ℤ → Type 0)
      → P (mapping_failed k size page_size fd w)
      → P (mapping_failed k size page_size fd remapped)
      → ((address == map_failed) ≡ false
          → P (
              transfer k size page_size fd address
                (note (Event.gave (Call.sys_mmap size fd) address) remapped)))
      → P (map_buffer k size page_size fd w)
  unfolding map_buffer
  map_buffer-cases P none refused mapped = elim (Bool-cases (address == map_failed)) [
    | inl bad ↦ rw bad none
    | inr chosen ↦
        let d = w.vars.driver in
        let len = (address + size + 2 ^ 64 - address) % 2 ^ 64 in
        let c = Call.dma_mmap_coherent d.dma_device d.dma_buffer_virt d.dma_buffer_phys len in
        let asked = mapped_by_driver k size page_size address w in
        elim (Bool-cases (ltb (dma_buffer_size page_size) len)) [
          | inl long ↦ rw (chosen, ◌>>=◌, asked, long) none
          | inr fits ↦ elim (Bool-cases (negative (k.status w.log c))) [
            | inl neg ↦
                rw (chosen, ◌>>=◌, asked, fits, neg, negative-nonzero (k.status w.log c) neg)
                  refused
            | inr ok ↦ rw (chosen, ◌>>=◌, asked, fits, ok) (mapped chosen)
          ]
        ]
  ]
