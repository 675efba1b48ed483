-- ===== src/Nic/Tests.antt =====
-- A run of network/nic.c: one buffer sent, then completed.
use char_driver_scull.Base.{true, false, pos, refl, [], ◌∷◌, arith, replicate}
use char_driver_scull.Kernel.{Event, World, Run}
use char_driver_scull.Kernel.Interface.{Call}
use char_driver_scull.Kernel.Driver.{Life, CanGoOn, Holds, HoldsBound}
use char_driver_scull.Kernel.Ledger.{ledger}
use char_driver_scull.Kernel.NetDevice.{NetOp}
use char_driver_scull.Nic.{
  Priv, Hardware, NetdevTx, IrqReturn, push, mynic_start_xmit, complete, complete_all, complete_tx,
  mynic_interrupt, mynic_driver, mynic_probe, mynic_open, mynic_stop, mynic_poll, receive,
}
use char_driver_scull.Nic.Ring.{IsRing}
use char_driver_scull.Nic.Fifo.{Step, Reaches, InOrder, Reaches-InOrder}
use char_driver_scull.Nic.Switch.{OnOff}
use char_driver_scull.Nic.Session.{Session, IsCard, Session-OnOff}
use char_driver_scull.Nic.Drain.{Drained}
use char_driver_scull.Nic.Whole.{mynic_probe-Drained}
use char_driver_scull.Nic.Resources.{bound}
use char_driver_scull.Nic.Life.{Op, operate, mynic_driver-Sound}
use char_driver_scull.Tests.{kernel, pdev, start}

abbrev pub hardware : Hardware
hardware = record {
  control_reg = 0;
  tx_reg = 4;
  intr_status_reg = 8;
  kick_tx = 1;
  enable_irq_rx = 2;
  enable_rx_irq = 2;
  rx_intr = 1;
  tx_intr = 2;
}

abbrev pub empty : World Priv
empty =
    start (record { mmio = 5; netdev = 5; tx_skbuff = replicate 128 0; tx_head = 0; tx_tail = 0 })

pub empty-IsRing : IsRing empty.vars []
empty-IsRing = record {
  size = refl;
  tail_in = omega arith;
  room = omega arith;
  head_at = refl;
  content = refl;
  skbs = tt;
}

-- The buffer at 3 has been sent.
abbrev pub sent : World Priv
sent = record {
  log =
      Event.ran Call.spin_unlock
      ∷ Event.ran (Call.iowrite 1 9)
      ∷ Event.ran Call.spin_lock
      ∷ Event.gave (Call.dma_map_single 3 60) 5
      ∷ [];
  vars = record empty.vars { tx_skbuff = 3 ∷ replicate 127 0; tx_head = 1 };
}

-- It has been completed, by an interrupt with the status 5.
abbrev completed : World Priv
completed = record {
  log =
      Event.ran (Call.netif_wake_queue 5)
      ∷ Event.ran Call.spin_unlock
      ∷ Event.ran (Call.dev_kfree_skb 3)
      ∷ Event.ran (Call.dma_unmap_single 8 5)
      ∷ Event.gave (Call.skb_len 3) 5
      ∷ Event.ran Call.spin_lock
      ∷ Event.ran (Call.iowrite 5 13)
      ∷ Event.gave (Call.ioread 13) 5
      ∷ sent.log;
  vars = record sent.vars { tx_skbuff = replicate 128 0; tx_tail = 1 };
}

run-Reaches : Reaches kernel hardware empty completed (3 ∷ [])
unfolding mynic_start_xmit push mynic_interrupt complete_tx complete_all complete
run-Reaches =
    Reaches.next
      (Reaches.next Reaches.here
        (Step.transmit 3 60 NetdevTx.netdev_tx_ok (omega arith) (omega arith) refl refl))
      (Step.interrupt (8 ∷ []) IrqReturn.irq_handled (omega arith) refl refl)

Reaches-InOrder_example : InOrder [] completed (3 ∷ [])
unfolding ledger
Reaches-InOrder_example =
    Reaches-InOrder kernel hardware [] empty completed (3 ∷ []) empty-IsRing refl refl run-Reaches

-- The driver is bound to a device, which is then opened.
abbrev unbound : World Priv
unbound = start (record { mmio = 0; netdev = 0; tx_skbuff = []; tx_head = 0; tx_tail = 0 })

abbrev probed : World Priv
probed = record {
  log =
      Event.ran (Call.netif_napi_add 5)
      ∷ Event.returned (Call.request_irq 9 5) (pos 0)
      ∷ Event.returned (Call.register_netdev 5) (pos 0)
      ∷ Event.ran (Call.pci_set_drvdata 5)
      ∷ Event.gave Call.alloc_netdev 5
      ∷ Event.gave (Call.pci_iomap 0) 5
      ∷ Event.returned (Call.pci_request_region 0) (pos 0)
      ∷ Event.returned Call.pci_enable_device (pos 0)
      ∷ [];
  vars = record unbound.vars { mmio = 5; netdev = 5; tx_skbuff = replicate 128 0 };
}

abbrev opened : World Priv
opened = record {
  log =
      Event.ran (Call.iowrite 2 5)
      ∷ Event.ran (Call.netif_start_queue 5)
      ∷ Event.ran (Call.napi_enable 5)
      ∷ probed.log;
  vars = probed.vars;
}

history : Life (mynic_driver kernel pdev) (operate kernel hardware) unbound true opened
unfolding mynic_probe mynic_open
history = Life.operated (Op.net NetOp.up) (Life.probed (pos 0) Life.start refl refl) refl

mynic_driver-Sound_example :
    Holds (HoldsBound (bound pdev)) true [] opened
    × CanGoOn (mynic_driver kernel pdev) (operate kernel hardware) true opened
unfolding ledger
mynic_driver-Sound_example =
    mynic_driver-Sound kernel hardware pdev unbound opened true [] refl history

-- The buffer at 3 is sent, and the hardware reports it.
abbrev first_sent : World Priv
first_sent = record {
  log =
      Event.ran Call.spin_unlock
      ∷ Event.ran (Call.iowrite 1 9)
      ∷ Event.ran Call.spin_lock
      ∷ Event.gave (Call.dma_map_single 3 60) 5
      ∷ opened.log;
  vars = record opened.vars { tx_skbuff = 3 ∷ replicate 127 0; tx_head = 1 };
}

probed-Reaches : Reaches kernel hardware probed first_sent (3 ∷ [])
unfolding mynic_open mynic_start_xmit push
probed-Reaches =
    Reaches.next (Reaches.next Reaches.here (Step.up (pos 0) refl refl))
      (Step.transmit 3 60 NetdevTx.netdev_tx_ok (omega arith) (omega arith) refl refl)

mynic_probe-Drained_example : Drained (3 ∷ []) (mynic_interrupt kernel hardware (8 ∷ []) first_sent)
unfolding ledger mynic_probe
mynic_probe-Drained_example =
    mynic_probe-Drained kernel hardware pdev unbound probed first_sent [] (3 ∷ []) (8 ∷ []) refl
      refl refl probed-Reaches refl refl

-- The interface is opened, sends the buffer at 3, is interrupted, polled and stopped.
abbrev reached : {A : Type 0} → Run Priv A → World Priv → World Priv
reached Run.fault w = w
reached (Run.ok a v) w = v

abbrev up : World Priv
up = reached (mynic_open kernel hardware empty) empty

abbrev up_sent : World Priv
up_sent = reached (mynic_start_xmit kernel hardware 3 60 up) up

abbrev up_completed : World Priv
up_completed = reached (mynic_interrupt kernel hardware (8 ∷ []) up_sent) up_sent

abbrev up_polled : World Priv
up_polled = reached (mynic_poll kernel hardware 64 (60 ∷ []) up_completed) up_completed

abbrev down : World Priv
down = reached (mynic_stop kernel hardware up_polled) up_polled

session : Session kernel hardware empty false down
unfolding mynic_open mynic_start_xmit push mynic_interrupt complete_tx complete_all complete
    mynic_poll receive mynic_stop
session =
    let sending =
      Session.sent 3 60 NetdevTx.netdev_tx_ok (Session.opened (pos 0) Session.start refl) refl in
    let completing = Session.interrupted (8 ∷ []) IrqReturn.irq_handled sending refl in
    Session.stopped (pos 0) (Session.polled 64 (60 ∷ []) 1 completing refl) refl

hardware-IsCard : IsCard hardware
hardware-IsCard = record { enables = refl; enables_rx = refl; tx_apart = refl; status_apart = refl }

empty-OnOff : OnOff hardware 5 false empty
empty-OnOff = record { safe = tt; napi = refl; hardware = refl; queue = refl; at = refl }

Session-OnOff_example : OnOff hardware 5 false down
Session-OnOff_example =
    Session-OnOff kernel hardware hardware-IsCard 5 empty false down empty-OnOff session
