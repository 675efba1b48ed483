-- ===== src/Peripheral/Reg.antt =====
-- The offsets of `struct my_device_regs` in dma_kernel_with_peripheral/driver.c.
use char_driver_scull.Base.{ℕ}

abbrev pub control : ℕ
control = 0

abbrev pub status : ℕ
status = 4

abbrev pub dma_addr : ℕ
dma_addr = 8

abbrev pub dma_len : ℕ
dma_len = 16
