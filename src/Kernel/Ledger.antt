-- ===== src/Kernel/Ledger.antt =====
-- What is held after a sequence of calls: the documented pairs of calls that acquire and release.
use char_driver_scull.Base.{
  ℕ, zero, suc, Bool, ◌&&◌, Option, none, some, List, [], ◌∷◌, ◌==◌, if◌then◌else◌, nonzero,
  negative, unsigned, ◌-◌, ◌^◌, leb,
}
use char_driver_scull.Kernel.{Event}
use char_driver_scull.Kernel.Interface.{Call}

pub data Resource : Type 0 where
  pci_enabled regions msix port lock driver : Resource
  region : (bar : ℕ) → Resource
  mapping : (p : ℕ) → Resource
  irq_line : (irq dev_id : ℕ) → Resource
  uio : (info : ℕ) → Resource
  block : (p : ℕ) → Resource
  dma_buffer : (size p : ℕ) → Resource
  netdev registered napi : (dev : ℕ) → Resource
  chrdev : (count : ℕ) → Resource
  cdev : (p : ℕ) → Resource
  device_class : (cls : ℕ) → Resource
  node : (cls devno : ℕ) → Resource
  descriptor : (fd : ℕ) → Resource
  user_map : (p : ℕ) → Resource

-- A kind and two arguments tell resources apart.
abbrev key : Resource → ℕ × ℕ × ℕ
key Resource.pci_enabled = (0, 0, 0)
key Resource.regions = (1, 0, 0)
key Resource.msix = (2, 0, 0)
key (Resource.region b) = (3, b, 0)
key (Resource.mapping p) = (4, p, 0)
key (Resource.irq_line i d) = (5, i, d)
key (Resource.uio i) = (6, i, 0)
key (Resource.block p) = (7, p, 0)
key (Resource.dma_buffer s p) = (8, s, p)
key (Resource.netdev d) = (9, d, 0)
key (Resource.registered d) = (10, d, 0)
key (Resource.napi d) = (11, d, 0)
key (Resource.chrdev n) = (12, n, 0)
key (Resource.cdev p) = (13, p, 0)
key (Resource.device_class c) = (14, c, 0)
key (Resource.node c d) = (15, c, d)
key Resource.port = (16, 0, 0)
key Resource.lock = (19, 0, 0)
key Resource.driver = (20, 0, 0)
key (Resource.descriptor f) = (17, f, 0)
key (Resource.user_map p) = (18, p, 0)

abbrev pub same : Resource → Resource → Bool
same r s = (key r).0 == (key s).0 && ((key r).1 == (key s).1 && (key r).2 == (key s).2)

abbrev pub Held : Type 0
Held = List Resource

-- Releasing what is not held is an error.
abbrev pub release : Resource → Held → Option Held
release r [] = none
release r (s ∷ rs) =
    let rest = release r rs in
    if same r s then some rs else elim rest [ none ↦ none | some rs' ↦ some (s ∷ rs') ]

pub data Effect : Type 0 where
  acquires releases : Resource → Effect
  -- Releases the resource if it is held.
  clears : Resource → Effect
  neutral : Effect

-- The largest error number that a pointer can encode.
abbrev pub is_err : ℕ → Bool
is_err p = leb (2 ^ 64 - 4095) p

-- What a call with status 0 acquires.
granted : Call → Effect
granted Call.pci_enable_device = Effect.acquires Resource.pci_enabled
granted Call.pci_register_driver = Effect.acquires Resource.driver
granted (Call.pci_request_region b) = Effect.acquires (Resource.region b)
granted Call.pci_request_regions = Effect.acquires Resource.regions
granted (Call.pci_enable_msix_exact e n) = Effect.acquires Resource.msix
granted (Call.request_irq i d) = Effect.acquires (Resource.irq_line i d)
granted (Call.uio_register_device i) = Effect.acquires (Resource.uio i)
granted (Call.register_netdev d) = Effect.acquires (Resource.registered d)
granted (Call.alloc_chrdev_region f n) = Effect.acquires (Resource.chrdev n)
granted (Call.cdev_add c d n) = Effect.acquires (Resource.cdev c)
granted (Call.sys_munmap p n) = Effect.releases (Resource.user_map p)
granted _ = Effect.neutral

-- What a call that answers with `p` acquires.
handed : Call → ℕ → Effect
handed (Call.ioremap s n) p =
    if p == 0 then Effect.neutral else Effect.acquires (Resource.mapping p)
handed (Call.pci_iomap b) p =
    if p == 0 then Effect.neutral else Effect.acquires (Resource.mapping p)
handed (Call.pci_ioremap_bar b) p =
    if p == 0 then Effect.neutral else Effect.acquires (Resource.mapping p)
handed (Call.kmalloc n) p = if p == 0 then Effect.neutral else Effect.acquires (Resource.block p)
handed (Call.dma_alloc_coherent d n) p =
    if p == 0 then Effect.neutral else Effect.acquires (Resource.dma_buffer n p)
handed Call.alloc_netdev p = if p == 0 then Effect.neutral else Effect.acquires (Resource.netdev p)
handed Call.class_create p =
    if is_err p then Effect.neutral else Effect.acquires (Resource.device_class p)
handed (Call.device_create c d) p =
    if is_err p then Effect.neutral else Effect.acquires (Resource.node c d)
handed Call.rte_pci_map_resource p =
    if p == 0 then Effect.neutral else Effect.acquires (Resource.mapping p)
handed Call.rte_eth_dev_allocate p =
    if p == 0 then Effect.neutral else Effect.acquires Resource.port
handed (Call.sys_mmap n fd) p =
    if p == 2 ^ 64 - 1 then Effect.neutral else Effect.acquires (Resource.user_map p)
handed _ _ = Effect.neutral

-- What a call with no answer does.
done : Call → Effect
done Call.pci_disable_device = Effect.releases Resource.pci_enabled
done Call.pci_unregister_driver = Effect.releases Resource.driver
done (Call.pci_release_region b) = Effect.releases (Resource.region b)
done Call.pci_release_regions = Effect.releases Resource.regions
done Call.pci_disable_msix = Effect.clears Resource.msix
done Call.spin_lock = Effect.acquires Resource.lock
done Call.spin_unlock = Effect.releases Resource.lock
done (Call.iounmap p) = Effect.releases (Resource.mapping p)
done (Call.pci_iounmap p) = Effect.releases (Resource.mapping p)
done (Call.free_irq i d) = Effect.releases (Resource.irq_line i d)
done (Call.uio_unregister_device i) = Effect.releases (Resource.uio i)
done (Call.kfree zero) = Effect.neutral
done (Call.kfree (suc p)) = Effect.releases (Resource.block (suc p))
done (Call.dma_free_coherent d n p q) = Effect.releases (Resource.dma_buffer n p)
done (Call.free_netdev d) = Effect.releases (Resource.netdev d)
done (Call.unregister_netdev d) = Effect.releases (Resource.registered d)
done (Call.netif_napi_add d) = Effect.acquires (Resource.napi d)
done (Call.netif_napi_del d) = Effect.releases (Resource.napi d)
done (Call.unregister_chrdev_region d n) = Effect.releases (Resource.chrdev n)
done (Call.cdev_del c) = Effect.releases (Resource.cdev c)
done (Call.class_destroy c) = Effect.releases (Resource.device_class c)
done (Call.device_destroy c d) = Effect.releases (Resource.node c d)
done (Call.rte_eth_dev_release_port p) = Effect.releases Resource.port
done (Call.sys_close fd) = Effect.releases (Resource.descriptor fd)
done _ = Effect.neutral

unfoldable pub effect : Event → Effect
unfolding granted handed done
effect (Event.returned Call.sys_open z) =
    if negative z then Effect.neutral else Effect.acquires (Resource.descriptor (unsigned z))
effect (Event.returned c z) = if nonzero z then Effect.neutral else granted c
effect (Event.gave c p) = handed c p
effect (Event.ran c) = done c

abbrev pub apply : Effect → Held → Option Held
apply (Effect.acquires r) rs = some (r ∷ rs)
apply (Effect.releases r) rs = release r rs
apply (Effect.clears r) rs = elim (release r rs) [ none ↦ some rs | some rs' ↦ some rs' ]
apply Effect.neutral rs = some rs

-- What is held after the calls of a log, whose latest event comes first. `none` means that
-- something was released that was not held.
unfoldable pub ledger : List Event → Option Held
unfolding effect
ledger [] = some []
ledger (e ∷ log) = elim (ledger log) [ none ↦ none | some rs ↦ apply (effect e) rs ]
