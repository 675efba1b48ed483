-- ===== src/Lib.antt =====
-- Example device drivers for Linux and DPDK: a model of the drivers' own code, with proofs.
--
-- The repository holds independent programs. Each is a module tree of this library, named for it:
--   Scull       main.c, main.h, util.c, util.h: the scull character devices
--   Pcie        pci_mmio/pcie.c: a PCI driver with one BAR and one interrupt
--   Uio         uio/simple_uio_driver.c: a UIO driver with MSI-X or the legacy interrupt
--   Peripheral  dma_kernel_with_peripheral/driver.c: a driver that simulates a DMA transfer
--   Nic         network/nic.c: a network driver with a transmit ring, an interrupt and NAPI
--   SimpleNic   network/simple_nic.c: a minimal network driver
--   Loopback    network/simple_loopback.c: a loopback network device
--   SimpleDma   dma_user/simple_dma_module.c: a character device that shares a DMA buffer
--   UserApp     dma_user/user_app.c: the program that uses it; it calls SimpleDma's mmap and ioctl
--   Pmd         network/dpdk/pmd.c: a DPDK poll-mode driver
--   Interrupts  interrupts/driver.c: a probe that reads four interrupt vectors, and a removal
--   Kernel      the calls that these programs make, and what the calls acquire and release
--   Base        numbers, lists, integers of C and Boolean tests
--   Tests       a kernel for examples, each theorem applied once, and runs of the short operations
--
-- How the code is modelled. A function of C becomes a command in the monad `M` of Kernel: a
-- function from a `World`, which has the log of all calls so far and a record with the program's
-- variables, to a `Run`, which is a result with the new world or a fault. A fault is an access
-- through NULL, to memory that is not allocated, or past the end of a buffer. The functions keep
-- their names; a label of an error path is a function with the label's name, and the middle part
-- of a long probe is a function of its own. The kernel, DPDK and the C library are outside the
-- repository: `Kernel` is a parameter that answers each call as it likes by the log, so every
-- call may fail. What a theorem needs of the kernel beyond that is a hypothesis with a name
-- (Remembers, ReturnsErrors, Creates, Words, Unmaps, Fresh, Numbers, Allocates, IsCard). `Kernel.Ledger`
-- reads a log as resources held, by the documented pairs of calls; releasing what is not held
-- makes the ledger `none`. Pointers and device registers are numbers. `int` is the sign-and-number
-- type ℤ of Base, `unsigned long` is a number with its wrap modulo 2 ^ 64 written out,
-- `u32` values that are computed are reduced modulo 2 ^ 32.
--
-- `Kernel.Driver` has the life of a device: a step relation in which the kernel's core calls the
-- probe of a device that is not bound, the other functions and the removal of one that is, in
-- any order, with the laws that a driver's functions have to meet one by one. Pcie, Nic,
-- SimpleNic and Peripheral fill the laws of a driver that loses nothing in their modules `Life`;
-- Uio and Pmd, which lose something, fill the general ones. Scull, SimpleDma and
-- Loopback, whose initialisation and exit run once, have modules `Session` for a run of the
-- module from the one to the other, `UserApp.Session` has the program between the two, and
-- `Pmd.Runs` the calls on a port.
-- `Nic.Session` has an interface that is opened and
-- stopped in turn. `Scull.Silent` and `Scull.Registered` read a log as what is registered, and `Scull.Restored` puts
-- that beside the memory of a session. The drivers' tables of functions (`struct pci_driver`, `struct
-- file_operations`, `struct net_device_ops`, `struct eth_dev_ops`, `struct rte_pci_driver`) are records, and the calls of
-- a session go through them.
--
-- Bounds and fuel. `scull_trim` runs on fuel, of which it takes one unit for each quantum set of
-- the list and one to see the end. The loop of `simple_dma_ioctl` has the size of the buffer
-- plus one as fuel, and takes one unit for two bytes. The other loops are structural: over the
-- packets or descriptors that the hardware has, which the sources leave open, or over a number
-- of rounds. The size of a page is a parameter; buffers have four pages. The size of `struct cdev`,
-- the last field of `struct scull_dev`, is the kernel's.
--
-- Not modelled: what is printed to the kernel log, delays, memory barriers, and the names that
-- drivers register; scull.mod.c, which the kernel build generates; uio/simple_uio_mmap.c, which
-- is empty. The calls of a program run one after another, and locks are in the log, but for
-- `Nic.Smp`: there any number of processors run `mynic_start_xmit` and `mynic_interrupt`, a step
-- at a time, and an interrupt may come on top of a transmission, since `spin_lock` leaves
-- interrupts enabled. A step is a call of the kernel, the two assignments that put a buffer into
-- the ring, or a round of the loop that completes transmissions; the ring is only touched with the
-- lock taken. The interleaving of the other drivers' functions is not modelled.
pub mod Base
pub mod Kernel
pub mod Pcie
pub mod Uio
pub mod Peripheral
pub mod Nic
pub mod SimpleNic
pub mod Loopback
pub mod SimpleDma
pub mod UserApp
pub mod Pmd
pub mod Scull
pub mod Interrupts
pub mod Tests
