-- ===== src/Peripheral.antt =====
-- dma_kernel_with_peripheral/driver.c: a PCI device with a DMA engine, whose hardware the driver
-- simulates over its registers.
use char_driver_scull.Base.{
  [], ◌∷◌, ℕ, ℤ, zero, suc, ◌+◌, ◌-◌, ◌*◌, ◌/◌, ◌%◌, ◌^◌, Bool, true, false, ◌&&◌, not, List, [],
  ◌∷◌, pos, negsuc, ◌==◌, leb, ltb, if◌then◌else◌, nonzero, negative, positive, unsigned, length,
  replicate,
}
use char_driver_scull.Kernel.{
  Kernel, M, crash, pure, ◌>>=◌, ◌>>◌, get, modify, void, status, number, out,
}
use char_driver_scull.Kernel.Driver.{PciDriver}
use char_driver_scull.Kernel.Interface.{Call, enomem}
use char_driver_scull.Kernel.Pci.{PciDev}
pub mod Resources
pub mod Life
mod Tests
pub mod Registers
pub mod Transfer
pub mod Reg
pub mod Bit

-- `struct my_device_priv`, with the DMA buffer's bytes. The pointer `regs` is `regs_base`.
pub record Priv : Type 0 where
  pub regs_base : ℕ
  pub dma_buffer_virt : ℕ
  pub dma_buffer_phys : ℕ
  pub buffer : List ℕ
  pub irq : ℤ
  -- the structure's own address, which `pci_set_drvdata` stores
  pub drvdata : ℕ

abbrev pub eio : ℤ
eio = negsuc 4

pub data IrqReturn : Type 0 where
  irq_none irq_handled : IrqReturn

pub data Direction : Type 0 where
  to_device from_device : Direction

-- `memset(p, v, n)` over a buffer.
pub fill : ℕ → ℕ → List ℕ → List ℕ
fill zero v xs = xs
fill (suc n) v [] = []
fill (suc n) v (x ∷ xs) = v ∷ fill n v xs

-- A write past the end of the buffer is a fault.
pub memset_buffer : (v n : ℕ) → M Priv (Unit {0})
unfolding fill
memset_buffer v n = do
  p ← get
  if ltb (length p.buffer) n then crash else modify (λ p. record p { buffer = fill n v p.buffer })

-- The tasklet only reports that the transfer is complete.
unfoldable pub my_device_tasklet_handler : M Priv (Unit {0})
my_device_tasklet_handler = pure tt

-- DMA_BUFFER_SIZE
abbrev pub dma_buffer_size : (page_size : ℕ) → ℕ
dma_buffer_size page_size = 4 * page_size

-- `ioread32(&priv->regs->r)` and `iowrite32(value, &priv->regs->r)`, of the register at an offset.
abbrev read_reg : Kernel → (reg : ℕ) → M Priv ℕ
read_reg k reg = do p ← get; number k (Call.ioread (p.regs_base + reg))

abbrev write_reg : (value reg : ℕ) → M Priv (Unit {0})
write_reg value reg = do p ← get; void (Call.iowrite value (p.regs_base + reg))

module _ (k : Kernel) where
  pub my_device_isr : M Priv IrqReturn
  my_device_isr = do
    status ← read_reg k Reg.status
    if Bit.has_bit status Bit.dma_done
        then (do
          write_reg (Bit.clear_bit status Bit.dma_done) Reg.status
          void Call.tasklet_schedule
          pure IrqReturn.irq_handled)
        else pure IrqReturn.irq_none

  module _ (page_size : ℕ) where
    -- The simulated transfer, the status that the hardware sets, and the interrupt.
    transfer : Direction → (dma_len : ℕ) → M Priv (Unit {0})
    unfolding memset_buffer
    transfer direction dma_len = do
      elim direction [
        | Direction.to_device ↦ pure tt
        | Direction.from_device ↦ memset_buffer 0xAA dma_len
      ]
      write_reg (2 ^ Bit.dma_done + 2 ^ Bit.irq_enable) Reg.status
      _ ← my_device_isr
      pure tt

    pub my_device_simulate_dma : M Priv (Unit {0})
    my_device_simulate_dma = do
      control ← read_reg k Reg.control
      dma_addr ← read_reg k Reg.dma_addr
      dma_len ← read_reg k Reg.dma_len
      let direction =
          if Bit.has_bit control Bit.dma_dir then Direction.from_device else Direction.to_device
      priv ← get
      if not (priv.dma_buffer_virt == 0) && leb dma_len (dma_buffer_size page_size)
          then transfer direction dma_len
          else write_reg 0 Reg.status
      write_reg (Bit.clear_bit control Bit.dma_start) Reg.control

    -- Step 5 of the probe, and the start bit of step 6.
    program_registers : M Priv (Unit {0})
    program_registers = do
      priv ← get
      write_reg priv.dma_buffer_phys Reg.dma_addr
      write_reg (dma_buffer_size page_size % 2 ^ 32) Reg.dma_len
      write_reg 0 Reg.control
      write_reg (2 ^ Bit.dma_dir + 2 ^ Bit.irq_enable) Reg.control
      write_reg (2 ^ Bit.dma_start + 2 ^ Bit.dma_dir + 2 ^ Bit.irq_enable) Reg.control

    -- Steps 5 to 7.
    pub start_dma : M Priv ℤ
    unfolding program_registers
    start_dma = do program_registers; my_device_simulate_dma; pure (pos 0)

    module _ (pdev : PciDev) where
      disable_pci : ℤ → M Priv ℤ
      disable_pci ret = do void Call.pci_disable_device; pure ret

      release_region : ℤ → M Priv ℤ
      unfolding disable_pci
      release_region ret = do void (Call.pci_release_region 0); disable_pci ret

      iounmap_regs : ℤ → M Priv ℤ
      unfolding release_region
      iounmap_regs ret = do
        priv ← get
        if priv.regs_base == 0 then pure tt else void (Call.iounmap priv.regs_base)
        release_region ret

      free_dma_buffer : ℤ → M Priv ℤ
      unfolding iounmap_regs
      free_dma_buffer ret = do
        priv ← get
        if priv.dma_buffer_virt == 0
            then pure tt
            else void (
                Call.dma_free_coherent pdev.self (dma_buffer_size page_size) priv.dma_buffer_virt
                  priv.dma_buffer_phys)
        iounmap_regs ret

      -- Step 4 of the probe.
      request_interrupt : M Priv ℤ
      unfolding free_dma_buffer
      request_interrupt = do
        irq ← status k (Call.pci_irq_vector 0)
        modify (λ p. record p { irq = irq })
        if negative irq then free_dma_buffer irq else do
          void Call.tasklet_init
          priv ← get
          ret ← status k (Call.request_irq (unsigned irq) priv.drvdata)
          if nonzero ret then free_dma_buffer ret else start_dma

      -- Step 3.
      allocate_buffer : M Priv ℤ
      unfolding iounmap_regs
      allocate_buffer = do
        p ← number k (Call.dma_alloc_coherent pdev.self (dma_buffer_size page_size))
        phys ← out k (Call.dma_alloc_coherent pdev.self (dma_buffer_size page_size))
        modify (λ v. record v { dma_buffer_virt = p; dma_buffer_phys = phys })
        if p == 0 then iounmap_regs enomem else do
          modify (λ v. record v { buffer = replicate (dma_buffer_size page_size) 0 })
          request_interrupt

      -- Step 2.
      map_registers : M Priv ℤ
      unfolding disable_pci release_region
      map_registers = do
        ret ← status k (Call.pci_request_region 0)
        if nonzero ret then disable_pci ret else do
          mmio_start ← number k (Call.pci_resource_start 0)
          mmio_len ← number k (Call.pci_resource_len 0)
          p ← number k (Call.ioremap mmio_start mmio_len)
          modify (λ v. record v { regs_base = p })
          if p == 0 then release_region eio else allocate_buffer

      pub my_device_probe : M Priv ℤ
      unfolding disable_pci
      my_device_probe = do
        ret ← status k Call.pci_enable_device
        if nonzero ret then pure ret else do
          priv_addr ← number k (Call.devm_kzalloc 0)
          if priv_addr == 0 then disable_pci enomem else do
            void (Call.pci_set_drvdata priv_addr)
            modify (λ v. record v { drvdata = priv_addr })
            map_registers

      pub my_device_remove : M Priv (Unit {0})
      my_device_remove = do
        priv ← get
        if priv.regs_base == 0 then pure tt else do
          control ← read_reg k Reg.control
          write_reg (Bit.clear_bit control Bit.irq_enable) Reg.control
        if positive priv.irq then void (Call.free_irq (unsigned priv.irq) priv.drvdata) else pure tt
        void Call.tasklet_kill
        if priv.dma_buffer_virt == 0
            then pure tt
            else void (
                Call.dma_free_coherent pdev.self (dma_buffer_size page_size) priv.dma_buffer_virt
                  priv.dma_buffer_phys)
        if priv.regs_base == 0 then pure tt else void (Call.iounmap priv.regs_base)
        void (Call.pci_release_region 0)
        void Call.pci_disable_device

unfoldable pub my_device_init : Kernel → M Priv ℤ
my_device_init k = status k Call.pci_register_driver

unfoldable pub my_device_exit : M Priv (Unit {0})
my_device_exit = void Call.pci_unregister_driver

abbrev pub my_device_id_table : List (ℕ × ℕ)
my_device_id_table = (0x1234, 0x5678) ∷ []

abbrev pub my_device_driver : (k : Kernel) (page_size : ℕ) → PciDev → PciDriver Priv
my_device_driver k page_size pdev = record {
  id_table = my_device_id_table;
  probe = my_device_probe k page_size pdev;
  remove = my_device_remove k page_size pdev;
}
