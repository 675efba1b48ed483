-- ===== src/SimpleDma/Settled.antt =====
-- What the initialisation of dma_user/simple_dma_module.c leaves, by its code.
use char_driver_scull.Base.{
  ℕ, ℤ, ◌<◌, ◌^◌, ◌≡◌, true, false, some, List, arith, ◌==◌, if◌then◌else◌, nonzero, length,
  replicate, length-replicate,
}
use char_driver_scull.Kernel.{Kernel, Event, World, Run, answered, answered_number, note}
use char_driver_scull.Kernel.Interface.{Call}
use char_driver_scull.Kernel.Ledger.{Held, is_err, ledger}
use char_driver_scull.SimpleDma.{
  Vars, dma_buffer_size, ptr_err, add_device, allocate, find_device, simple_dma_init,
}
use char_driver_scull.SimpleDma.Resources.{ReturnsErrors, with_buffer, registered, bound}

-- A buffer, if there is one, has the allocated size.
abbrev pub Sized : ℕ → Vars → Type 0
Sized page_size v = (v.dma_buffer_virt == 0) ≡ false → length v.buffer ≡ dma_buffer_size page_size

-- The module is loaded.
abbrev pub Loaded : ℕ → Held → World Vars → Type 0
Loaded page_size rs w = (ledger w.log ≡ some (bound page_size w.vars rs)) × Sized page_size w.vars

-- With code 0 the module is loaded; with another one only the DMA buffer is still held.
abbrev pub Settled : ℕ → Held → Run Vars ℤ → Type 0
Settled page_size rs Run.fault = ⊥
Settled page_size rs (Run.ok ret w) =
    if nonzero ret
    then ledger w.log ≡ some (with_buffer page_size w.vars.dma_buffer_virt rs)
    else Loaded page_size rs w

-- `device_create` gives a device. When it fails, the initialisation reads its code from
-- `simple_dma_class`, a valid pointer, and may return 0.
abbrev pub Creates : Kernel → Type 0
Creates k = (log : List Event) (c t : ℕ) → is_err (k.number log (Call.device_create c t)) ≡ false

-- Pointers have 64 bits.
abbrev pub Words : Kernel → Type 0
Words k = (log : List Event) → k.number log Call.class_create < 2 ^ 64

-- The code of an error pointer is not zero.
ptr_err-nonzero : (p : ℕ) → is_err p ≡ true → p < 2 ^ 64 → nonzero (ptr_err p) ≡ true
ptr_err-nonzero p h lt = ground arith

module _ (k : Kernel) (errors : ReturnsErrors k) (creates : Creates k) (page_size : ℕ) where
  add_device-Settled :
      (w : World Vars) (rs : Held)
      → Sized page_size w.vars
      → ledger w.log ≡ some (with_buffer page_size w.vars.dma_buffer_virt (registered w.vars rs))
      → Settled page_size rs (add_device k page_size w)
  unfolding add_device ledger
  add_device-Settled w rs s h =
      let i = note (Event.ran (Call.cdev_init w.vars.simple_dma_cdev)) w in
      let a = answered k (Call.cdev_add w.vars.simple_dma_cdev w.vars.simple_dma_dev_t 1) i in
      ground (
        arith,
        errors.add i.log w.vars.simple_dma_cdev w.vars.simple_dma_dev_t 1,
        creates a.log w.vars.simple_dma_class w.vars.simple_dma_dev_t,
        s,
      )

  find_device-Settled :
      (w : World Vars) (rs : Held)
      → w.vars.dma_buffer_virt ≡ 0
      → ledger w.log ≡ some (registered w.vars rs)
      → Settled page_size rs (find_device k page_size w)
  unfolding find_device allocate ledger
  find_device-Settled w rs z h =
      let f = Call.class_find_device w.vars.simple_dma_class in
      let device = k.number w.log f in
      let d = answered_number k f w in
      let d' : World Vars = record d { vars = record d.vars { dma_device = device } } in
      let c = Call.dma_alloc_coherent device (dma_buffer_size page_size) in
      let a = answered_number k c d in
      let v = record a.vars {
        dma_device = device;
        dma_buffer_virt = k.number d.log c;
        dma_buffer_phys = k.out a.log c;
        buffer =
            if k.number d.log c == 0
            then a.vars.buffer
            else replicate (dma_buffer_size page_size) 0;
      } in
      let sized : Sized page_size v =
        λ nz. rw nz (length-replicate {A = ℕ} (dma_buffer_size page_size) 0) in
      ground (
        arith,
        add_device-Settled d' rs (λ nz. ground arith),
        add_device-Settled (record a { vars = v }) rs sized,
      )

  pub simple_dma_init-Settled :
      (words : Words k) (w : World Vars) (rs : Held)
      → w.vars.dma_buffer_virt ≡ 0
      → ledger w.log ≡ some rs
      → Settled page_size rs (simple_dma_init k page_size w)
  unfolding simple_dma_init ledger
  simple_dma_init-Settled words w rs z h =
      let c = Call.alloc_chrdev_region 0 1 in
      let r = answered k c w in
      let l = answered_number k Call.class_create r in
      let v = record l.vars {
        simple_dma_dev_t = k.out r.log c;
        simple_dma_class = k.number r.log Call.class_create;
      } in
      ground (
        arith,
        errors.region w.log 0 1,
        ptr_err-nonzero (k.number r.log Call.class_create),
        words r.log,
        find_device-Settled (record l { vars = v }) rs,
      )
