-- ===== src/Kernel/Interface.antt =====
-- The functions of the kernel, of DPDK and of the C library that the sources call, with the
-- arguments that matter. Pointers are numbers, and NULL is 0.
use char_driver_scull.Base.{ℕ, ℤ, negsuc}

pub data Call : Type 0 where
  -- PCI and interrupts
  pci_enable_device pci_disable_device : Call
  pci_request_region pci_release_region : (bar : ℕ) → Call
  pci_request_regions pci_release_regions : Call
  pci_resource_start pci_resource_len : (bar : ℕ) → Call
  ioremap : (start len : ℕ) → Call
  pci_iomap pci_ioremap_bar : (bar : ℕ) → Call
  iounmap pci_iounmap : (p : ℕ) → Call
  pci_set_drvdata : (p : ℕ) → Call
  pci_enable_msix_exact : (entry count : ℕ) → Call
  pci_disable_msix pci_msix_vec_count : Call
  pci_irq_vector : (i : ℕ) → Call
  request_irq free_irq : (irq dev_id : ℕ) → Call
  enable_irq disable_irq : (irq : ℕ) → Call
  uio_register_device uio_unregister_device : (info : ℕ) → Call
  pci_register_driver pci_unregister_driver : Call
  -- memory, registers and deferred work
  devm_kzalloc kmalloc : (size : ℕ) → Call
  kfree : (p : ℕ) → Call
  dma_alloc_coherent : (device size : ℕ) → Call
  dma_free_coherent : (device size virt phys : ℕ) → Call
  dma_mmap_coherent : (device virt phys size : ℕ) → Call
  dma_map_single : (p len : ℕ) → Call
  dma_unmap_single : (handle len : ℕ) → Call
  ioread : (reg : ℕ) → Call
  iowrite : (value reg : ℕ) → Call
  tasklet_init tasklet_schedule tasklet_kill spin_lock spin_unlock : Call
  -- network devices
  alloc_netdev : Call
  free_netdev register_netdev unregister_netdev : (dev : ℕ) → Call
  netif_napi_add netif_napi_del napi_enable napi_disable napi_schedule : (dev : ℕ) → Call
  napi_complete_done : (dev done : ℕ) → Call
  netif_start_queue netif_stop_queue netif_wake_queue : (dev : ℕ) → Call
  netdev_alloc_skb : (dev len : ℕ) → Call
  netif_receive_skb netif_rx dev_kfree_skb skb_orphan eth_type_trans : (skb : ℕ) → Call
  skb_len : (skb : ℕ) → Call
  -- character devices
  alloc_chrdev_region : (first count : ℕ) → Call
  unregister_chrdev_region : (devno count : ℕ) → Call
  cdev_init : (cdev : ℕ) → Call
  cdev_add : (cdev devno count : ℕ) → Call
  cdev_del : (cdev : ℕ) → Call
  class_create : Call
  class_destroy : (cls : ℕ) → Call
  class_find_device : (cls : ℕ) → Call
  device_create device_destroy : (cls devno : ℕ) → Call
  copy_to_user : (len : ℕ) → Call
  -- DPDK
  rte_eal_pci_register rte_pci_map_resource rte_eth_dev_allocate : Call
  rte_eth_dev_release_port : (port : ℕ) → Call
  rte_zmalloc : (size : ℕ) → Call
  rte_eth_linkstatus_set : (up speed : ℕ) → Call
  -- system calls of the user program
  sys_open : Call
  sys_close : (fd : ℕ) → Call
  sys_mmap : (len fd : ℕ) → Call
  sys_munmap : (p len : ℕ) → Call
  sys_ioctl : (fd cmd : ℕ) → Call

abbrev pub enomem : ℤ
enomem = negsuc 11
