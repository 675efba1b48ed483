-- ===== src/SimpleDma/Tests.antt =====
-- An initialisation of dma_user/simple_dma_module.c that succeeds.
use char_driver_scull.Base.{pos, refl, [], ◌∷◌, ◌≡◌, replicate}
use char_driver_scull.Kernel.{Event, World, Run}
use char_driver_scull.Kernel.Interface.{Call}
use char_driver_scull.SimpleDma.{Vars, simple_dma_init, find_device, allocate, add_device}
use char_driver_scull.Tests.{kernel, start}

abbrev pub unloaded : World Vars
unloaded = start (record {
  simple_dma_dev_t = 0;
  simple_dma_cdev = 2;
  simple_dma_class = 0;
  dma_buffer_virt = 0;
  dma_buffer_phys = 0;
  dma_device = 0;
  buffer = [];
})

-- With pages of eight bytes.
abbrev pub loaded : World Vars
loaded = record {
  log =
      Event.gave (Call.device_create 5 7) 5
      ∷ Event.returned (Call.cdev_add 2 7 1) (pos 0)
      ∷ Event.ran (Call.cdev_init 2)
      ∷ Event.gave (Call.dma_alloc_coherent 5 32) 5
      ∷ Event.gave (Call.class_find_device 5) 5
      ∷ Event.gave Call.class_create 5
      ∷ Event.returned (Call.alloc_chrdev_region 0 1) (pos 0)
      ∷ [];
  vars = record {
    simple_dma_dev_t = 7;
    simple_dma_cdev = 2;
    simple_dma_class = 5;
    dma_buffer_virt = 5;
    dma_buffer_phys = 7;
    dma_device = 5;
    buffer = replicate 32 0;
  };
}

pub simple_dma_init-loaded : simple_dma_init kernel 8 unloaded ≡ Run.ok (pos 0) loaded
unfolding simple_dma_init find_device allocate add_device
simple_dma_init-loaded = refl
