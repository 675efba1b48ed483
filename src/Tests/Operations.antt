-- ===== src/Tests/Operations.antt =====
-- The short operations of the sources, each run once.
use char_driver_scull.Base.{ℕ, pos, refl, List, ◌∷◌, ◌≡◌}
use char_driver_scull.Nic
use char_driver_scull.Kernel.{Kernel, answered, Event, World, Run, answered_number}
use char_driver_scull.Kernel.Interface.{Call}
use char_driver_scull.Pcie
use char_driver_scull.Uio
use char_driver_scull.Uio.Irq
use char_driver_scull.Peripheral
use char_driver_scull.Peripheral.{my_device_tasklet_handler}
use char_driver_scull.SimpleNic
use char_driver_scull.Loopback
use char_driver_scull.Loopback.{myloop_open, myloop_stop, myloop_setup}
use char_driver_scull.SimpleDma
use char_driver_scull.SimpleDma.{simple_dma_open, simple_dma_release}
use char_driver_scull.Pmd
use char_driver_scull.Pmd.{my_pmd_dev_configure, my_pmd_close}
use char_driver_scull.Scull
use char_driver_scull.Scull.{scull_read, scull_write, scull_release}
use char_driver_scull.Tests.{kernel}

abbrev after : {S : Type 0} → List Event → World S → World S
after events w = record w { log = events }

irq_handler-handles : (irq dev_id : ℕ) → Pcie.irq_handler irq dev_id ≡ Pcie.IrqReturn.irq_handled
unfolding Pcie.irq_handler
irq_handler-handles irq dev_id = refl

dummy_handler-handles :
    (irq dev_id : ℕ) → Uio.Irq.dummy_handler irq dev_id ≡ Uio.Irq.IrqReturn.irq_handled
unfolding Uio.Irq.dummy_handler
dummy_handler-handles irq dev_id = refl

dummy_irqcontrol-enables :
    (w : World Uio.Vars)
    → Uio.dummy_irqcontrol kernel 3 (pos 1) w
      ≡ Run.ok (pos 0) (after (Event.ran (Call.enable_irq w.vars.dummy_irq) ∷ w.log) w)
unfolding Uio.dummy_irqcontrol
dummy_irqcontrol-enables w = refl

dummy_irqcontrol-disables :
    (w : World Uio.Vars)
    → Uio.dummy_irqcontrol kernel 3 (pos 0) w
      ≡ Run.ok (pos 0) (after (Event.ran (Call.disable_irq w.vars.dummy_irq) ∷ w.log) w)
unfolding Uio.dummy_irqcontrol
dummy_irqcontrol-disables w = refl

tasklet-keeps : (w : World Peripheral.Priv) → my_device_tasklet_handler w ≡ Run.ok tt w
unfolding my_device_tasklet_handler
tasklet-keeps w = refl

simple_nic_calls :
    (w : World SimpleNic.Vars)
    → (SimpleNic.mynic_open 5 w
        ≡ Run.ok (pos 0) (after (Event.ran (Call.netif_start_queue 5) ∷ w.log) w))
      × (SimpleNic.mynic_stop 5 w
          ≡ Run.ok (pos 0) (after (Event.ran (Call.netif_stop_queue 5) ∷ w.log) w))
      × (SimpleNic.mynic_xmit 3 5 w
          ≡ Run.ok SimpleNic.NetdevTx.netdev_tx_ok
              (after (Event.ran (Call.dev_kfree_skb 3) ∷ w.log) w))
unfolding SimpleNic.mynic_open SimpleNic.mynic_stop SimpleNic.mynic_xmit
simple_nic_calls w = (refl, refl, refl)

loopback_calls :
    (w : World Loopback.Vars)
    → (myloop_open 5 w ≡ Run.ok (pos 0) (after (Event.ran (Call.netif_start_queue 5) ∷ w.log) w))
      × (myloop_stop 5 w ≡ Run.ok (pos 0) (after (Event.ran (Call.netif_stop_queue 5) ∷ w.log) w))
unfolding myloop_open myloop_stop
loopback_calls w = (refl, refl)

simple_dma_calls :
    (w : World SimpleDma.Vars)
    → (simple_dma_open w ≡ Run.ok (pos 0) w) × (simple_dma_release w ≡ Run.ok (pos 0) w)
unfolding simple_dma_open simple_dma_release
simple_dma_calls w = (refl, refl)

pmd_calls :
    (w : World Pmd.Vars)
    → (my_pmd_dev_configure w ≡ Run.ok (pos 0) w) × (my_pmd_close w ≡ Run.ok tt w)
unfolding my_pmd_dev_configure my_pmd_close
pmd_calls w = (refl, refl)

-- A read of one byte copies 22.
scull_calls :
    (w : World Scull.Vars)
    → (scull_read kernel 1 0 w
        ≡ Run.ok Scull.efault (answered_number kernel (Call.copy_to_user 22) w))
      × (scull_write kernel 1 0 w ≡ Run.ok (pos 0) w)
      × (scull_release w ≡ Run.ok (pos 0) w)
unfolding scull_read scull_write scull_release
scull_calls w = (refl, refl, refl)

-- The module functions register and unregister the driver.
load_pcie :
    (k : Kernel) (w : World Pcie.Vars)
    → (Pcie.pci_irq_init k w
        ≡ Run.ok (k.status w.log Call.pci_register_driver) (answered k Call.pci_register_driver w))
      × (Pcie.pci_irq_exit w ≡ Run.ok tt (after (Event.ran Call.pci_unregister_driver ∷ w.log) w))
unfolding Pcie.pci_irq_init Pcie.pci_irq_exit
load_pcie k w = (refl, refl)

load_nic :
    (k : Kernel) (w : World Nic.Priv)
    → (Nic.mynic_init k w
        ≡ Run.ok (k.status w.log Call.pci_register_driver) (answered k Call.pci_register_driver w))
      × (Nic.mynic_exit w ≡ Run.ok tt (after (Event.ran Call.pci_unregister_driver ∷ w.log) w))
unfolding Nic.mynic_init Nic.mynic_exit
load_nic k w = (refl, refl)

load_peripheral :
    (k : Kernel) (w : World Peripheral.Priv)
    → (Peripheral.my_device_init k w
        ≡ Run.ok (k.status w.log Call.pci_register_driver) (answered k Call.pci_register_driver w))
      × (Peripheral.my_device_exit w
          ≡ Run.ok tt (after (Event.ran Call.pci_unregister_driver ∷ w.log) w))
unfolding Peripheral.my_device_init Peripheral.my_device_exit
load_peripheral k w = (refl, refl)

load_pmd :
    (k : Kernel) (w : World Pmd.Vars)
    → Pmd.my_pmd_init k w
      ≡ Run.ok (k.status w.log Call.rte_eal_pci_register) (answered k Call.rte_eal_pci_register w)
unfolding Pmd.my_pmd_init
load_pmd k w = refl
