-- ===== src/Tests/Pci.antt =====
-- The theorems on the PCI drivers, the UIO driver and the simulated peripheral, on examples.
use char_driver_scull.Base.{pos, refl, [], ◌∷◌, arith, replicate}
use char_driver_scull.Kernel.{Kernel, answered}
use char_driver_scull.Kernel.Interface.{Call}
use char_driver_scull.Peripheral
use char_driver_scull.Peripheral.Transfer.{Keeps, my_device_simulate_dma-Keeps}
use char_driver_scull.Peripheral.Registers.{
  Handled, Transferred, my_device_isr-Handled, start_dma-Transferred,
}
use char_driver_scull.Interrupts
use char_driver_scull.Interrupts.Vectors.{Got, multi_vector_probe-Assigned}
use char_driver_scull.Tests.{kernel, remembering, start}

-- A page of one byte makes a buffer of four.
abbrev priv : Peripheral.Priv
priv = record {
  regs_base = 5;
  dma_buffer_virt = 5;
  dma_buffer_phys = 7;
  buffer = replicate (Peripheral.dma_buffer_size 1) 0;
  irq = pos 9;
  drvdata = 5;
}

my_device_simulate_dma-Keeps_example :
    Keeps (start priv) (Peripheral.my_device_simulate_dma kernel 1 (start priv))
my_device_simulate_dma-Keeps_example = my_device_simulate_dma-Keeps kernel 1 (start priv) refl

my_device_isr-Handled_example :
    Handled 5 (start priv) (Peripheral.my_device_isr kernel (start priv))
my_device_isr-Handled_example = my_device_isr-Handled kernel (start priv)

start_dma-Transferred_example :
    Transferred 1 (start priv) (Peripheral.start_dma remembering 1 (start priv))
start_dma-Transferred_example =
    start_dma-Transferred remembering (λ log reg. refl) 1 (start priv) (omega arith) (omega arith)
      refl

abbrev vectors : Interrupts.Vars
vectors = record { pdev = 0; irq_vecs = pos 0 ∷ pos 0 ∷ pos 0 ∷ pos 0 ∷ [] }

-- The kernel answers 8 vectors, and the number 8 for each.
abbrev eight : Kernel
eight = record kernel { status = λ log c. pos 8 }

multi_vector_probe-Assigned_example :
    Got 4 []
      (answered eight Call.pci_msix_vec_count (start vectors)).log
      (Interrupts.multi_vector_probe eight 1 (start vectors))
multi_vector_probe-Assigned_example =
    multi_vector_probe-Assigned eight 1 vectors.irq_vecs (start vectors) refl refl
