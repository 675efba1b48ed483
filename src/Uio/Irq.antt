-- ===== src/Uio/Irq.antt =====
-- The interrupt of uio/simple_uio_driver.c.
use char_driver_scull.Base.{ℕ}

pub data IrqReturn : Type 0 where
  irq_none irq_handled : IrqReturn

unfoldable pub dummy_handler : (irq dev_id : ℕ) → IrqReturn
dummy_handler irq dev_id = IrqReturn.irq_handled
