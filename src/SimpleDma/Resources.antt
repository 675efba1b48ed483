-- ===== src/SimpleDma/Resources.antt =====
-- What the initialisation and the exit of dma_user/simple_dma_module.c acquire and release.
use char_driver_scull.Base.{
  ℕ, ℤ, ◌≡◌, ◌⊎◌, false, pos, some, List, ◌∷◌, arith, ◌==◌, if◌then◌else◌, positive, replicate,
}
use char_driver_scull.Kernel.{Kernel, Event, World, Run, answered, answered_number}
use char_driver_scull.Kernel.Interface.{Call}
use char_driver_scull.Kernel.Ledger.{Resource, Held, ledger}
use char_driver_scull.Kernel.Outcome.{Leaves}
use char_driver_scull.SimpleDma.{
  Vars, dma_buffer_size, add_device, allocate, find_device, simple_dma_init, simple_dma_exit,
}

-- What the kernel documents: these calls return zero or a negative error code.
pub record ReturnsErrors (k : Kernel) : Type 0 where
  pub region :
      (log : List Event) (f n : ℕ) → positive (k.status log (Call.alloc_chrdev_region f n)) ≡ false
  pub add : (log : List Event) (c d n : ℕ) → positive (k.status log (Call.cdev_add c d n)) ≡ false

abbrev pub with_buffer : ℕ → ℕ → Held → Held
with_buffer page_size virt rs =
    if virt == 0 then rs else Resource.dma_buffer (dma_buffer_size page_size) virt ∷ rs

abbrev pub registered : Vars → Held → Held
registered v rs = Resource.device_class v.simple_dma_class ∷ Resource.chrdev 1 ∷ rs

-- What the module holds once it is loaded.
abbrev pub bound : ℕ → Vars → Held → Held
bound page_size v rs =
    Resource.node v.simple_dma_class v.simple_dma_dev_t
    ∷ Resource.cdev v.simple_dma_cdev
    ∷ with_buffer page_size v.dma_buffer_virt (registered v rs)

-- Either the module is loaded, or all but the DMA buffer is released.
abbrev pub Outcome : ℕ → Held → Run Vars ℤ → Type 0
Outcome page_size rs Run.fault = ⊥
Outcome page_size rs (Run.ok ret w) =
    ((ret ≡ pos 0) × (ledger w.log ≡ some (bound page_size w.vars rs)))
    ⊎ (ledger w.log ≡ some (with_buffer page_size w.vars.dma_buffer_virt rs))

module _ (k : Kernel) (errors : ReturnsErrors k) (page_size : ℕ) where
  add_device-Outcome :
      (w : World Vars) (rs : Held)
      → ledger w.log ≡ some (with_buffer page_size w.vars.dma_buffer_virt (registered w.vars rs))
      → Outcome page_size rs (add_device k page_size w)
  unfolding add_device ledger
  add_device-Outcome w rs h = ground (
    arith,
    errors.add (Event.ran (Call.cdev_init w.vars.simple_dma_cdev) ∷ w.log) w.vars.simple_dma_cdev
        w.vars.simple_dma_dev_t 1,
  )

  find_device-Outcome :
      (w : World Vars) (rs : Held)
      → w.vars.dma_buffer_virt ≡ 0
      → ledger w.log ≡ some (registered w.vars rs)
      → Outcome page_size rs (find_device k page_size w)
  unfolding find_device allocate ledger
  find_device-Outcome w rs z h =
      let f = Call.class_find_device w.vars.simple_dma_class in
      let device = k.number w.log f in
      let d = answered_number k f w in
      let d' : World Vars = record d { vars = record d.vars { dma_device = device } } in
      let c = Call.dma_alloc_coherent device (dma_buffer_size page_size) in
      let a = answered_number k c d in
      let v = record a.vars {
        dma_device = device;
        dma_buffer_virt = k.number d.log c;
        dma_buffer_phys = k.out a.log c;
        buffer =
            if k.number d.log c == 0
            then a.vars.buffer
            else replicate (dma_buffer_size page_size) 0;
      } in
      ground (arith, add_device-Outcome d' rs, add_device-Outcome (record a { vars = v }) rs)

  pub simple_dma_init-Outcome :
      (w : World Vars) (rs : Held)
      → w.vars.dma_buffer_virt ≡ 0
      → ledger w.log ≡ some rs
      → Outcome page_size rs (simple_dma_init k page_size w)
  unfolding simple_dma_init ledger
  simple_dma_init-Outcome w rs z h =
      let c = Call.alloc_chrdev_region 0 1 in
      let r = answered k c w in
      let l = answered_number k Call.class_create r in
      let v = record l.vars {
        simple_dma_dev_t = k.out r.log c;
        simple_dma_class = k.number r.log Call.class_create;
      } in
      ground (arith, errors.region w.log 0 1, find_device-Outcome (record l { vars = v }) rs)

module _ (k : Kernel) (page_size : ℕ) where
  -- `simple_dma_exit`, called with what the loaded module holds on top of `rs`, with or without a
  -- buffer, leaves `rs`.
  pub simple_dma_exit-Leaves :
      (w : World Vars) (rs : Held)
      → ledger w.log ≡ some (bound page_size w.vars rs)
      → Leaves rs (simple_dma_exit k page_size w)
  unfolding simple_dma_exit ledger
  simple_dma_exit-Leaves w rs h = ground arith
