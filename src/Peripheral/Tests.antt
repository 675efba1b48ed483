-- ===== src/Peripheral/Tests.antt =====
-- A history of dma_kernel_with_peripheral/driver.c: a probe that succeeds, and the tasklet.
use char_driver_scull.Base.{ℤ, List, pos, true, refl, [], ◌∷◌}
use char_driver_scull.Kernel.{Kernel, Event, World}
use char_driver_scull.Kernel.Interface.{Call}
use char_driver_scull.Kernel.Driver.{Life, CanGoOn, Holds}
use char_driver_scull.Kernel.Ledger.{ledger}
use char_driver_scull.Peripheral.{
  Priv, my_device_driver, my_device_probe, map_registers, allocate_buffer, request_interrupt,
  start_dma, my_device_simulate_dma, my_device_tasklet_handler,
}
use char_driver_scull.Peripheral.Life.{Op, operate, Numbers, Bound, my_device_driver-Sound}
use char_driver_scull.Tests.{kernel, pdev, start}

abbrev vector_nine : List Event → Call → ℤ
vector_nine log (Call.pci_irq_vector n) = pos 9
vector_nine log _ = pos 0

-- The interrupt vector has the number 9.
abbrev numbering : Kernel
numbering = record kernel { status = vector_nine }

numbering-Numbers : Numbers numbering
numbering-Numbers log = refl

abbrev unbound : World Priv
unbound = start (record {
  regs_base = 0;
  dma_buffer_virt = 0;
  dma_buffer_phys = 0;
  buffer = [];
  irq = pos 0;
  drvdata = 0;
})

-- With a page of one byte. The registers read as 5.
abbrev probed : World Priv
probed = record {
  log =
      Event.ran (Call.iowrite 4 5)
      ∷ Event.ran (Call.iowrite 0 9)
      ∷ Event.gave (Call.ioread 21) 5
      ∷ Event.gave (Call.ioread 13) 5
      ∷ Event.gave (Call.ioread 5) 5
      ∷ Event.ran (Call.iowrite 7 5)
      ∷ Event.ran (Call.iowrite 6 5)
      ∷ Event.ran (Call.iowrite 0 5)
      ∷ Event.ran (Call.iowrite 4 21)
      ∷ Event.ran (Call.iowrite 7 13)
      ∷ Event.returned (Call.request_irq 9 5) (pos 0)
      ∷ Event.ran Call.tasklet_init
      ∷ Event.returned (Call.pci_irq_vector 0) (pos 9)
      ∷ Event.gave (Call.dma_alloc_coherent 1 4) 5
      ∷ Event.gave (Call.ioremap 5 5) 5
      ∷ Event.gave (Call.pci_resource_len 0) 5
      ∷ Event.gave (Call.pci_resource_start 0) 5
      ∷ Event.returned (Call.pci_request_region 0) (pos 0)
      ∷ Event.ran (Call.pci_set_drvdata 5)
      ∷ Event.gave (Call.devm_kzalloc 0) 5
      ∷ Event.returned Call.pci_enable_device (pos 0)
      ∷ [];
  vars = record {
    regs_base = 5;
    dma_buffer_virt = 5;
    dma_buffer_phys = 7;
    buffer = 0 ∷ 0 ∷ 0 ∷ 0 ∷ [];
    irq = pos 9;
    drvdata = 5;
  };
}

history : Life (my_device_driver numbering 1 pdev) (operate numbering) unbound true probed
unfolding my_device_probe map_registers allocate_buffer request_interrupt start_dma
    my_device_simulate_dma my_device_tasklet_handler
history = Life.operated Op.tasklet (Life.probed (pos 0) Life.start refl refl) refl

my_device_driver-Sound_example :
    Holds (Bound 1) true [] probed
    × CanGoOn (my_device_driver numbering 1 pdev) (operate numbering) true probed
unfolding ledger
my_device_driver-Sound_example =
    my_device_driver-Sound numbering 1 numbering-Numbers pdev unbound probed true [] refl history
