-- ===== src/Peripheral/Registers.antt =====
-- The simulated device of dma_kernel_with_peripheral/driver.c: registers that keep what is written.
use char_driver_scull.Base.{
  ℕ, ℤ, suc, ◌+◌, ◌^◌, ◌<◌, ◌≡◌, ◌≢◌, List, [], ◌∷◌, pos, arith, ◌==◌, if◌then◌else◌, length,
  replicate,
}
use char_driver_scull.Kernel.{Kernel, Event, World, Run, answered_number, note}
use char_driver_scull.Kernel.Interface.{Call}
use char_driver_scull.Peripheral.Bit
use char_driver_scull.Peripheral.Reg
use char_driver_scull.Peripheral.{
  Priv, IrqReturn, dma_buffer_size, my_device_isr, my_device_simulate_dma, start_dma, transfer,
}
use char_driver_scull.Peripheral.Transfer.{fill-replicate}
use char_driver_scull.Peripheral.Resources.{programmed}

-- The value last written to a register, and 0 before that.
abbrev pub last_write : ℕ → List Event → ℕ
last_write reg [] = 0
last_write reg (Event.ran (Call.iowrite v r) ∷ log) = if r == reg then v else last_write reg log
last_write reg (_ ∷ log) = last_write reg log

-- How often the tasklet has been scheduled.
abbrev pub scheduled : List Event → ℕ
scheduled [] = 0
scheduled (Event.ran Call.tasklet_schedule ∷ log) = suc (scheduled log)
scheduled (_ ∷ log) = scheduled log

-- The registers behave as memory, which the sources say of the simulated device.
abbrev pub Remembers : Kernel → Type 0
Remembers k = (log : List Event) (reg : ℕ) → k.number log (Call.ioread reg) ≡ last_write reg log

-- What an interrupt does: acknowledged and passed on exactly if the done bit is set.
abbrev pub Handled : ℕ → World Priv → Run Priv IrqReturn → Type 0
Handled status w Run.fault = ⊥
Handled status w (Run.ok r w') =
    if Bit.has_bit status Bit.dma_done
    then (r ≡ IrqReturn.irq_handled)
      × (last_write (w.vars.regs_base + Reg.status) w'.log + 2 ≡ status)
      × (scheduled w'.log ≡ scheduled w.log + 1)
    else (r ≡ IrqReturn.irq_none)
      × (last_write (w.vars.regs_base + Reg.status) w'.log
          ≡ last_write (w.vars.regs_base + Reg.status) w.log)
      × (scheduled w'.log ≡ scheduled w.log)

-- A transfer from the device that has completed: the buffer, the registers, one tasklet.
abbrev pub Transferred : ℕ → World Priv → Run Priv ℤ → Type 0
Transferred page_size w Run.fault = ⊥
Transferred page_size w (Run.ok ret w') =
    (ret ≡ pos 0)
    × (w'.vars.buffer ≡ replicate (dma_buffer_size page_size) 0xAA)
    × (last_write (w.vars.regs_base + Reg.control) w'.log ≡ 6)
    × (last_write (w.vars.regs_base + Reg.status) w'.log ≡ 4)
    × (scheduled w'.log ≡ scheduled w.log + 1)

module _ (k : Kernel) where
  -- The interrupt handler, when the status that it reads has the done bit, writes the status
  -- without that bit, schedules the tasklet once and reports the interrupt as handled; otherwise
  -- it writes no status, schedules nothing and reports it as not its own.
  pub my_device_isr-Handled :
      (w : World Priv)
      → Handled (k.number w.log (Call.ioread (w.vars.regs_base + Reg.status))) w (my_device_isr k w)
  unfolding my_device_isr
  my_device_isr-Handled w = ground arith

  module _ (mem : Remembers k) (page_size : ℕ) where
    -- With registers that behave as memory, a buffer of the allocated size at an address that is
    -- not NULL, and a size that fits in 32 bits, `start_dma` returns 0: each byte of the buffer
    -- is 0xAA, the tasklet has been scheduled once more, the control register has the start bit
    -- cleared and the done bit of the status register has been acknowledged.
    pub start_dma-Transferred :
        (w : World Priv)
        → dma_buffer_size page_size < 2 ^ 32
        → w.vars.dma_buffer_virt ≢ 0
        → length w.vars.buffer ≡ dma_buffer_size page_size
        → Transferred page_size w (start_dma k page_size w)
    unfolding start_dma my_device_simulate_dma transfer my_device_isr
    start_dma-Transferred w small v e =
        let p = programmed page_size w in
        let c = answered_number k (Call.ioread (w.vars.regs_base + Reg.control)) p in
        let a = answered_number k (Call.ioread (w.vars.regs_base + Reg.dma_addr)) c in
        let l = answered_number k (Call.ioread (w.vars.regs_base + Reg.dma_len)) a in
        let i = note (Event.ran (Call.iowrite 6 (w.vars.regs_base + Reg.status))) l in
        ground (
          arith,
          mem p.log (w.vars.regs_base + Reg.control),
          mem a.log (w.vars.regs_base + Reg.dma_len),
          mem i.log (w.vars.regs_base + Reg.status),
          fill-replicate 0xAA w.vars.buffer,
        )
