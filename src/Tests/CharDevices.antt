-- ===== src/Tests/CharDevices.antt =====
-- The theorems on the DMA module and its user program, on examples.
use char_driver_scull.Base.{List, ℕ, pos, refl, [], ◌∷◌, ◌≡◌, arith, replicate}
use char_driver_scull.Kernel.{Event, World, Run, answered}
use char_driver_scull.Kernel.Interface.{Call}
use char_driver_scull.Kernel.Ledger.{ledger}
use char_driver_scull.SimpleDma
use char_driver_scull.Kernel.Driver.{After}
use char_driver_scull.SimpleDma.Settled.{Creates, Words}
use char_driver_scull.SimpleDma.Session.{FileOp, Over, session, simple_dma_session-Over}
use char_driver_scull.SimpleDma.Ioctl.{reversed, simple_dma_ioctl_lem}
use char_driver_scull.SimpleDma.Mmap.{simple_dma_mmap_lem}
use char_driver_scull.SimpleDma.Resources.{ReturnsErrors, Outcome, simple_dma_init-Outcome}
use char_driver_scull.UserApp
use char_driver_scull.UserApp.Session.{Finished, run_and_remove, run_and_remove-Finished}
use char_driver_scull.SimpleDma.Tests
use char_driver_scull.SimpleDma.Tests.{simple_dma_init-loaded}
use char_driver_scull.Tests.{kernel, start}

-- A page of one byte makes a buffer of four, and one of eight a buffer of 32.
abbrev module_vars : ℕ → SimpleDma.Vars
module_vars page_size = record {
  simple_dma_dev_t = 7;
  simple_dma_cdev = 2;
  simple_dma_class = 5;
  dma_buffer_virt = 5;
  dma_buffer_phys = 7;
  dma_device = 5;
  buffer = replicate (SimpleDma.dma_buffer_size page_size) 0;
}

abbrev loaded : World SimpleDma.Vars
loaded = record {
  log =
      Event.gave (Call.device_create 5 7) 5
      ∷ Event.returned (Call.cdev_add 2 7 1) (pos 0)
      ∷ Event.gave (Call.dma_alloc_coherent 5 (SimpleDma.dma_buffer_size 1)) 5
      ∷ Event.gave Call.class_create 5
      ∷ Event.returned (Call.alloc_chrdev_region 0 1) (pos 0)
      ∷ [];
  vars = record (module_vars 1) { buffer = 1 ∷ 2 ∷ 3 ∷ 4 ∷ [] };
}

simple_dma_ioctl_lem_example :
    SimpleDma.simple_dma_ioctl 1 SimpleDma.start_transfer loaded ≡ Run.ok (pos 0) (reversed loaded)
simple_dma_ioctl_lem_example =
    simple_dma_ioctl_lem 1 SimpleDma.start_transfer loaded (omega arith) refl

abbrev area : SimpleDma.Vma
area = record { vm_start = 4096; vm_end = 4100; vm_pgoff = 0 }

simple_dma_mmap_lem_example :
    SimpleDma.simple_dma_mmap kernel 1 area loaded
    ≡ Run.ok (pos 0) (answered kernel (Call.dma_mmap_coherent 5 5 7 4) loaded)
simple_dma_mmap_lem_example = simple_dma_mmap_lem kernel 1 area loaded (omega arith) (omega arith)

abbrev kernel-ReturnsErrors : ReturnsErrors kernel
kernel-ReturnsErrors = record { region = λ log f n. refl; add = λ log c d n. refl }

abbrev unloaded : World SimpleDma.Vars
unloaded = start (record (module_vars 1) { dma_buffer_virt = 0 })

simple_dma_init-Outcome_example : Outcome 1 [] (SimpleDma.simple_dma_init kernel 1 unloaded)
unfolding ledger
simple_dma_init-Outcome_example =
    simple_dma_init-Outcome kernel kernel-ReturnsErrors 1 unloaded [] refl refl

kernel-Creates : Creates kernel
kernel-Creates log c t = refl

kernel-Words : Words kernel
kernel-Words log = omega arith

-- The device is opened, mapped, has a transfer and an unknown command, and is closed.
abbrev uses : List FileOp
uses =
    FileOp.open_file
    ∷ FileOp.mmap area
    ∷ FileOp.ioctl SimpleDma.start_transfer
    ∷ FileOp.ioctl 7
    ∷ FileOp.release
    ∷ []

simple_dma_session-Over_example : After (Over 1 []) (session kernel 1 uses unloaded)
unfolding ledger
simple_dma_session-Over_example =
    simple_dma_session-Over kernel 1 (omega arith) kernel-ReturnsErrors kernel-Creates kernel-Words
      uses unloaded [] refl refl

-- The program with a buffer of 32 bytes, on the module that has been loaded.
abbrev app : World UserApp.App
app = record {
  log = SimpleDma.Tests.loaded.log;
  vars = record { driver = SimpleDma.Tests.loaded.vars; printed = [] };
}

run_and_remove-Finished_example : After (Finished app []) (run_and_remove kernel 32 8 app)
unfolding ledger
run_and_remove-Finished_example =
    run_and_remove-Finished kernel 32 8 kernel-ReturnsErrors kernel-Creates kernel-Words
      (λ log p n. refl) SimpleDma.Tests.unloaded SimpleDma.Tests.loaded [] [] (omega arith) refl
      (omega arith) refl refl simple_dma_init-loaded (omega arith)
