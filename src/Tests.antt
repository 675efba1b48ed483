-- ===== src/Tests.antt =====
-- A kernel for examples, and the examples by part.
mod Pci
mod Network
pub mod Bursts
mod CharDevices
mod Operations
use char_driver_scull.Base.{ℕ, List, [], pos, ◌<◌}
use char_driver_scull.Kernel.{Kernel, Event, World}
use char_driver_scull.Kernel.Interface.{Call}
use char_driver_scull.Kernel.Pci.{PciDev}
use char_driver_scull.Peripheral.Registers.{last_write}

-- Every call succeeds.
abbrev pub kernel : Kernel
kernel = record {
  status = λ log c. pos 0;
  number = λ log c. 5;
  out = λ log c. 7;
  sizeof_cdev = 104;
}

abbrev register_or_five : List Event → Call → ℕ
register_or_five log (Call.ioread reg) = last_write reg log
register_or_five log _ = 5

-- Every call succeeds, and the registers keep what is written to them.
abbrev pub remembering : Kernel
remembering = record kernel { number = register_or_five }

abbrev pub pdev : PciDev
pdev = record { self = 1; irq = 9; msix_vector = 11 }

abbrev pub start : {S : Type 0} → S → World S
start s = record { log = []; vars = s }
