-- ===== src/Peripheral/Life.antt =====
-- The life of a device under the driver of dma_kernel_with_peripheral/driver.c.
use char_driver_scull.Base.{
  ℕ, ℤ, Bool, true, false, not, List, some, ◌≡◌, arith, ◌==◌, if◌then◌else◌, nonzero, positive,
  unsigned, length, replicate, length-replicate, Bool-cases, inl, inr,
}
use char_driver_scull.Kernel.{
  Kernel, Event, World, Run, M, pure, ◌>>=◌, answered, answered_number, note,
}
use char_driver_scull.Kernel.Interface.{Call}
use char_driver_scull.Kernel.Driver.{
  After, Life, CanGoOn, Holds, IsBalanced, Life-Sound, Leaves-After,
}
use char_driver_scull.Kernel.Ledger.{Held, ledger}
use char_driver_scull.Kernel.Outcome.{Atomic}
use char_driver_scull.Kernel.Pci.{PciDev}
use char_driver_scull.Peripheral.{
  Priv, dma_buffer_size, start_dma, request_interrupt, allocate_buffer, map_registers,
  my_device_driver, my_device_isr, my_device_tasklet_handler, my_device_probe, my_device_remove,
}
use char_driver_scull.Peripheral.Transfer.{my_device_simulate_dma-Keeps}
use char_driver_scull.Peripheral.Resources.{
  bound, programmed, my_device_probe-Atomic, my_device_remove-Leaves,
}

-- What runs while the device is bound.
pub data Op : Type 0 where
  interrupt tasklet : Op

-- The number of a PCI interrupt vector is not zero: positive or an error code.
abbrev pub Numbers : Kernel → Type 0
Numbers k = (log : List Event) → nonzero (k.status log (Call.pci_irq_vector 0)) ≡ true

-- What the removal relies on beside the resources.
abbrev IsReady : Priv → Type 0
IsReady v =
    (positive v.irq ≡ true) × ((v.dma_buffer_virt == 0) ≡ false) × ((v.regs_base == 0) ≡ false)

abbrev pub Bound : ℕ → Held → World Priv → Type 0
Bound page_size rs w = (ledger w.log ≡ some (bound page_size w.vars rs)) × IsReady w.vars

abbrev Sets : Run Priv ℤ → Type 0
Sets Run.fault = ⊥
Sets (Run.ok err w) = if nonzero err then Unit {0} else IsReady w.vars

module _ (k : Kernel) where
  abbrev pub operate : Op → M Priv (Unit {0})
  operate interrupt = do _ ← my_device_isr k; pure tt
  operate tasklet = my_device_tasklet_handler

  operate-Bound :
      (page_size : ℕ) (op : Op) (w : World Priv) (rs : Held)
      → Bound page_size rs w
      → After (λ _ w'. Bound page_size rs w') (operate op w)
  unfolding my_device_isr my_device_tasklet_handler ledger
  operate-Bound page_size interrupt w rs (l, (i, v, m)) = ground arith
  operate-Bound page_size tasklet w rs h = h

  module _ (page_size : ℕ) where
    start_dma-Sets :
        (w : World Priv)
        → IsReady w.vars
        → length w.vars.buffer ≡ dma_buffer_size page_size
        → Sets (start_dma k page_size w)
    unfolding start_dma
    start_dma-Sets w (i, v, m) e =
        ground (arith, my_device_simulate_dma-Keeps k page_size (programmed page_size w) e)

    module _ (numbers : Numbers k) (pdev : PciDev) where
      request_interrupt-Sets :
          (w : World Priv)
          → (w.vars.dma_buffer_virt == 0) ≡ false
          → (w.vars.regs_base == 0) ≡ false
          → length w.vars.buffer ≡ dma_buffer_size page_size
          → Sets (request_interrupt k page_size pdev w)
      unfolding request_interrupt
      request_interrupt-Sets w v m e =
          let i = answered k (Call.pci_irq_vector 0) w in
          let irq = k.status w.log (Call.pci_irq_vector 0) in
          let t = note (Event.ran Call.tasklet_init) i in
          let q = answered k (Call.request_irq (unsigned irq) w.vars.drvdata) t in
          ground
            (arith, numbers w.log, start_dma-Sets (record q { vars = record q.vars { irq = irq } }))

      allocate_buffer-Sets :
          (w : World Priv)
          → (w.vars.regs_base == 0) ≡ false
          → Sets (allocate_buffer k page_size pdev w)
      unfolding allocate_buffer
      allocate_buffer-Sets w m =
          let c = Call.dma_alloc_coherent pdev.self (dma_buffer_size page_size) in
          let a = answered_number k c w in
          let v = record a.vars {
            dma_buffer_virt = k.number w.log c;
            dma_buffer_phys = k.out a.log c;
            buffer = replicate (dma_buffer_size page_size) 0;
          } in
          ground (
            arith,
            length-replicate {A = ℕ} (dma_buffer_size page_size) 0,
            request_interrupt-Sets (record a { vars = v }),
          )

      my_device_probe-Sets : (w : World Priv) → Sets (my_device_probe k page_size pdev w)
      unfolding my_device_probe map_registers
      my_device_probe-Sets w =
          let e = answered k Call.pci_enable_device w in
          let z = answered_number k (Call.devm_kzalloc 0) e in
          let p = k.number e.log (Call.devm_kzalloc 0) in
          let d = note (Event.ran (Call.pci_set_drvdata p)) z in
          let r = answered k (Call.pci_request_region 0) d in
          let s = answered_number k (Call.pci_resource_start 0) r in
          let l = answered_number k (Call.pci_resource_len 0) s in
          let c =
            Call.ioremap (k.number r.log (Call.pci_resource_start 0))
              (k.number s.log (Call.pci_resource_len 0)) in
          let m = answered_number k c l in
          let v = record m.vars { drvdata = p; regs_base = k.number l.log c } in
          ground (arith, allocate_buffer-Sets (record m { vars = v }))

      Atomic-Sets :
          (rs : Held) (r : Run Priv ℤ)
          → Atomic (bound page_size) rs r
          → Sets r
          → After (λ err w. Holds (Bound page_size) (not (nonzero err)) rs w) r
      Atomic-Sets rs Run.fault a s = s
      Atomic-Sets rs (Run.ok err w) a s = elim (Bool-cases (nonzero err)) [
        | inl e ↦ rw e (rw e at a)
        | inr e ↦ rw e (rw e at a, rw e at s)
      ]

      remove-After :
          (w : World Priv) (rs : Held)
          → Bound page_size rs w
          → After (λ _ w'. ledger w'.log ≡ some rs) (my_device_remove k page_size pdev w)
      remove-After w rs (l, (i, v, m)) = Leaves-After rs (my_device_remove k page_size pdev w) (
          my_device_remove-Leaves k page_size pdev w rs i (λ e. ground (arith, e))
            (λ e. ground (arith, e)) l)

      my_device_driver-IsBalanced :
          IsBalanced (my_device_driver k page_size pdev) operate (Bound page_size)
      my_device_driver-IsBalanced = record {
        probe_law = λ w rs h.
            Atomic-Sets rs (my_device_probe k page_size pdev w)
              (my_device_probe-Atomic k page_size pdev w rs h) (my_device_probe-Sets w);
        operate_law = operate-Bound page_size;
        remove_law = remove-After;
      }

      -- With interrupt numbers that are not zero, in every history of probes, interrupts, tasklets and
      -- removals, with any failures of the probes and any contents of the registers: while the device
      -- is not bound, the driver holds nothing beyond `rs`, what was held at the start; while it is
      -- bound, it holds the device, the region, the mapping, the DMA buffer and the interrupt line on
      -- top of that, and has a buffer, a mapping and an interrupt number. The next call that the
      -- kernel may make does not fault.
      pub my_device_driver-Sound :
          (begin w : World Priv) (b : Bool) (rs : Held)
          → ledger begin.log ≡ some rs
          → Life (my_device_driver k page_size pdev) operate begin b w
          → Holds (Bound page_size) b rs w × CanGoOn (my_device_driver k page_size pdev) operate b w
      my_device_driver-Sound =
          Life-Sound (my_device_driver k page_size pdev) operate (Bound page_size)
            my_device_driver-IsBalanced
