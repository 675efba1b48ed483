-- ===== src/Peripheral/Bit.antt =====
-- The bits of the registers in dma_kernel_with_peripheral/driver.c, by their numbers.
use char_driver_scull.Base.{ℕ, ◌-◌, ◌/◌, ◌%◌, ◌^◌, Bool, ◌==◌, if◌then◌else◌}

abbrev pub dma_start : ℕ
dma_start = 0

abbrev pub dma_dir : ℕ
dma_dir = 1

abbrev pub dma_done : ℕ
dma_done = 1

abbrev pub irq_enable : ℕ
irq_enable = 2

-- `x & (1 << i)`
abbrev pub has_bit : ℕ → ℕ → Bool
has_bit x i = x / 2 ^ i % 2 == 1

-- `x & ~(1 << i)`
abbrev pub clear_bit : ℕ → ℕ → ℕ
clear_bit x i = if has_bit x i then x - 2 ^ i else x
