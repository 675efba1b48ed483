-- ===== src/Tests/Network.antt =====
-- The theorems on the network drivers, on examples.
use char_driver_scull.Base.{List, ℕ, zero, suc, true, refl, [], ◌∷◌, ◌≡◌, ◌≢◌, arith, replicate}
use char_driver_scull.Kernel.{Event, World}
use char_driver_scull.Kernel.Interface.{Call}
use char_driver_scull.Kernel.Ledger.{ledger}
use char_driver_scull.Nic
use char_driver_scull.Nic.{ring_size, push}
use char_driver_scull.Nic.Resources.{mynic_probe-staged, mynic_probe-Atomic, mynic_remove-Leaves}
use char_driver_scull.Nic.Ring.{IsRing, AllSkbs}
use char_driver_scull.Nic.Interrupt.{Interrupted, mynic_interrupt-Interrupted}
use char_driver_scull.Nic.Poll.{Polled, mynic_poll-Polled}
use char_driver_scull.Nic.Order.{Safe}
use char_driver_scull.Loopback
use char_driver_scull.Kernel.Driver.{After}
use char_driver_scull.Kernel.NetDevice.{NetOp}
use char_driver_scull.Loopback.Session.{Over, session, myloop_session-Over}
use char_driver_scull.Tests.{kernel, pdev, start}

abbrev hardware : Nic.Hardware
hardware = record {
  control_reg = 0;
  tx_reg = 4;
  intr_status_reg = 8;
  kick_tx = 1;
  enable_irq_rx = 2;
  enable_rx_irq = 2;
  rx_intr = 1;
  tx_intr = 4;
}

-- The ring with one buffer in flight, that at 3.
abbrev nic : Nic.Priv
nic = record { mmio = 5; netdev = 5; tx_skbuff = 3 ∷ replicate 127 0; tx_head = 1; tx_tail = 0 }

nic-IsRing : IsRing nic (3 ∷ [])
nic-IsRing = record {
  size = refl;
  tail_in = omega arith;
  room = omega arith;
  head_at = refl;
  content = refl;
  skbs = (omega arith, tt);
}

mynic_probe-staged_example :
    Nic.mynic_probe kernel pdev (start nic) ≡ Nic.Resources.staged_probe kernel pdev (start nic)
mynic_probe-staged_example = mynic_probe-staged kernel pdev (start nic)

mynic_interrupt-Interrupted_example :
    Interrupted hardware 5
      (start nic)
      (3 ∷ [])
      []
      (Nic.mynic_interrupt kernel hardware (8 ∷ []) (start nic))
unfolding ledger
mynic_interrupt-Interrupted_example =
    mynic_interrupt-Interrupted kernel hardware (8 ∷ []) (3 ∷ []) [] (start nic) [] refl nic-IsRing
      refl

mynic_poll-Polled_example :
    Polled 2 (start nic) (Nic.mynic_poll kernel hardware 2 (60 ∷ 61 ∷ 62 ∷ []) (start nic))
mynic_poll-Polled_example = mynic_poll-Polled kernel hardware 2 (60 ∷ 61 ∷ 62 ∷ []) (start nic)

replicate-AllSkbs : (n x : ℕ) → x ≢ 0 → AllSkbs (replicate n x)
replicate-AllSkbs zero x h = tt
replicate-AllSkbs (suc n) x h = (h, replicate-AllSkbs n x h)

-- The ring with 128 buffers in flight.
abbrev full : Nic.Priv
full = record nic { tx_skbuff = replicate 128 3; tx_head = 0 }

full-IsRing : IsRing full (3 ∷ replicate 127 3)
full-IsRing = record {
  size = refl;
  tail_in = omega arith;
  room = omega arith;
  head_at = refl;
  content = refl;
  skbs = replicate-AllSkbs 128 3 (omega arith);
}

abbrev loop_vars : Loopback.Vars
loop_vars = record {
  myloop_dev = 5;
  stats = record { tx_packets = 2; tx_bytes = 100; rx_packets = 2; rx_bytes = 100 };
  is_loopback = true;
}

-- Nothing has been switched on.
abbrev idle : World Nic.Priv
idle = start nic

abbrev running : World Nic.Priv
running = record {
  log =
      Event.ran (Call.iowrite 2 5)
      ∷ Event.ran (Call.netif_start_queue 5)
      ∷ Event.ran (Call.napi_enable 5)
      ∷ [];
  vars = nic;
}

running-Safe : Safe 5 running.log
running-Safe = ((λ _. (refl, refl)), ((λ e. ground (arith, e)), ((λ e. ground (arith, e)), tt)))

-- Two packets, and an opening between them.
abbrev packets : List NetOp
packets = NetOp.send 3 60 ∷ NetOp.up ∷ NetOp.send 4 61 ∷ []

myloop_session-Over_example :
    After (Over [] packets (start loop_vars)) (session kernel packets (start loop_vars))
unfolding ledger
myloop_session-Over_example = myloop_session-Over kernel [] packets (start loop_vars) refl refl
