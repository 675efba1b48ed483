-- ===== src/Peripheral/Resources.antt =====
-- What the probe and the removal of dma_kernel_with_peripheral/driver.c acquire and release.
use char_driver_scull.Base.{
  ◌+◌, ℕ, ◌≡◌, ◌≢◌, ◌%◌, ◌^◌, true, false, some, ◌∷◌, arith, ◌==◌, positive, unsigned, length,
  length-replicate, replicate,
}
use char_driver_scull.Kernel.{Kernel, World, answered, answered_number, note, Event}
use char_driver_scull.Kernel.Interface.{Call}
use char_driver_scull.Kernel.Ledger.{Resource, Held, ledger}
use char_driver_scull.Kernel.Outcome.{Leaves, Atomic}
use char_driver_scull.Kernel.Pci.{PciDev}
use char_driver_scull.Peripheral.Reg
use char_driver_scull.Peripheral.{
  Priv, dma_buffer_size, start_dma, request_interrupt, allocate_buffer, map_registers,
  my_device_probe, my_device_remove,
}
use char_driver_scull.Peripheral.Transfer.{my_device_simulate_dma-Keeps}

-- What the driver holds while it is bound to the device.
abbrev pub held_buffer : ℕ → Priv → Held → Held
held_buffer page_size v rs =
    Resource.dma_buffer (dma_buffer_size page_size) v.dma_buffer_virt
    ∷ Resource.mapping v.regs_base
    ∷ Resource.region 0
    ∷ Resource.pci_enabled
    ∷ rs

abbrev pub bound : ℕ → Priv → Held → Held
bound page_size v rs = Resource.irq_line (unsigned v.irq) v.drvdata ∷ held_buffer page_size v rs

-- The world after step 5.
abbrev pub programmed : ℕ → World Priv → World Priv
programmed page_size w = note (Event.ran (Call.iowrite 7 (w.vars.regs_base + Reg.control))) (
    note (Event.ran (Call.iowrite 6 (w.vars.regs_base + Reg.control))) (
      note (Event.ran (Call.iowrite 0 (w.vars.regs_base + Reg.control))) (
        note
          (Event.ran
            (Call.iowrite (dma_buffer_size page_size % 2 ^ 32) (w.vars.regs_base + Reg.dma_len)))
          (note (Event.ran (Call.iowrite w.vars.dma_buffer_phys (w.vars.regs_base + Reg.dma_addr)))
            w))))

module _ (k : Kernel) (page_size : ℕ) where
  start_dma-Atomic :
      (w : World Priv) (rs : Held)
      → length w.vars.buffer ≡ dma_buffer_size page_size
      → ledger w.log ≡ some (bound page_size w.vars rs)
      → Atomic (bound page_size) rs (start_dma k page_size w)
  unfolding start_dma ledger
  start_dma-Atomic w rs e h =
      ground (arith, my_device_simulate_dma-Keeps k page_size (programmed page_size w) e)

  module _ (pdev : PciDev) where
    request_interrupt-Atomic :
        (w : World Priv) (rs : Held)
        → (w.vars.dma_buffer_virt == 0) ≡ false
        → (w.vars.regs_base == 0) ≡ false
        → length w.vars.buffer ≡ dma_buffer_size page_size
        → ledger w.log ≡ some (held_buffer page_size w.vars rs)
        → Atomic (bound page_size) rs (request_interrupt k page_size pdev w)
    unfolding request_interrupt ledger
    request_interrupt-Atomic w rs v m e h =
        let i = answered k (Call.pci_irq_vector 0) w in
        let irq = k.status w.log (Call.pci_irq_vector 0) in
        let t = note (Event.ran Call.tasklet_init) i in
        let q = answered k (Call.request_irq (unsigned irq) w.vars.drvdata) t in
        ground (arith, start_dma-Atomic (record q { vars = record q.vars { irq = irq } }) rs)

    allocate_buffer-Atomic :
        (w : World Priv) (rs : Held)
        → (w.vars.regs_base == 0) ≡ false
        → ledger w.log
          ≡ some (Resource.mapping w.vars.regs_base ∷ Resource.region 0 ∷ Resource.pci_enabled ∷ rs)
        → Atomic (bound page_size) rs (allocate_buffer k page_size pdev w)
    unfolding allocate_buffer ledger
    allocate_buffer-Atomic w rs m h =
        let c = Call.dma_alloc_coherent pdev.self (dma_buffer_size page_size) in
        let a = answered_number k c w in
        let v = record a.vars {
          dma_buffer_virt = k.number w.log c;
          dma_buffer_phys = k.out a.log c;
          buffer = replicate (dma_buffer_size page_size) 0;
        } in
        ground (
          arith,
          length-replicate {A = ℕ} (dma_buffer_size page_size) 0,
          request_interrupt-Atomic (record a { vars = v }) rs,
        )

    map_registers-Atomic :
        (w : World Priv) (rs : Held)
        → ledger w.log ≡ some (Resource.pci_enabled ∷ rs)
        → Atomic (bound page_size) rs (map_registers k page_size pdev w)
    unfolding map_registers ledger
    map_registers-Atomic w rs h =
        let r = answered k (Call.pci_request_region 0) w in
        let s = answered_number k (Call.pci_resource_start 0) r in
        let l = answered_number k (Call.pci_resource_len 0) s in
        let c =
          Call.ioremap (k.number r.log (Call.pci_resource_start 0))
            (k.number s.log (Call.pci_resource_len 0)) in
        let m = answered_number k c l in
        let v = record m.vars { regs_base = k.number l.log c } in
        ground (arith, allocate_buffer-Atomic (record m { vars = v }) rs)

    -- `my_device_probe` does not fault. With a nonzero code it holds what it held before; with
    -- code 0 it holds the device, the region, the mapping, the DMA buffer and the interrupt line
    -- on top of that.
    pub my_device_probe-Atomic :
        (w : World Priv) (rs : Held)
        → ledger w.log ≡ some rs
        → Atomic (bound page_size) rs (my_device_probe k page_size pdev w)
    unfolding my_device_probe ledger
    my_device_probe-Atomic w rs h =
        let e = answered k Call.pci_enable_device w in
        let z = answered_number k (Call.devm_kzalloc 0) e in
        let p = k.number e.log (Call.devm_kzalloc 0) in
        let d = note (Event.ran (Call.pci_set_drvdata p)) z in
        ground (arith, map_registers-Atomic (record d { vars = record d.vars { drvdata = p } }) rs)

    -- `my_device_remove`, with a positive interrupt number, a buffer and a mapping that are not
    -- NULL, and what a successful probe holds on top of `rs`, leaves `rs`.
    pub my_device_remove-Leaves :
        (w : World Priv) (rs : Held)
        → positive w.vars.irq ≡ true
        → w.vars.dma_buffer_virt ≢ 0
        → w.vars.regs_base ≢ 0
        → ledger w.log ≡ some (bound page_size w.vars rs)
        → Leaves rs (my_device_remove k page_size pdev w)
    unfolding my_device_remove ledger
    my_device_remove-Leaves w rs i v m h = ground arith
