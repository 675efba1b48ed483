-- ===== src/SimpleNic/Tests.antt =====
-- A history of network/simple_nic.c: a probe that succeeds, and one packet sent.
use char_driver_scull.Base.{pos, true, refl, [], ◌∷◌}
use char_driver_scull.Kernel.{Event, World}
use char_driver_scull.Kernel.Interface.{Call}
use char_driver_scull.Kernel.Driver.{Life, CanGoOn, Holds, HoldsBound}
use char_driver_scull.Kernel.Ledger.{ledger}
use char_driver_scull.Kernel.NetDevice.{NetOp}
use char_driver_scull.SimpleNic.{Vars, mynic_driver, mynic_probe, mynic_xmit}
use char_driver_scull.SimpleNic.Resources.{bound}
use char_driver_scull.SimpleNic.Life.{operate, simple_mynic_driver-Sound}
use char_driver_scull.Tests.{kernel, start}

abbrev unbound : World Vars
unbound = start (record { drvdata = 0 })

abbrev probed : World Vars
probed = record {
  log =
      Event.returned (Call.register_netdev 5) (pos 0)
      ∷ Event.ran (Call.pci_set_drvdata 5)
      ∷ Event.gave Call.alloc_netdev 5
      ∷ [];
  vars = record { drvdata = 5 };
}

abbrev sent : World Vars
sent = record probed { log = Event.ran (Call.dev_kfree_skb 3) ∷ probed.log }

history : Life (mynic_driver kernel) (operate 5) unbound true sent
unfolding mynic_probe mynic_xmit
history = Life.operated (NetOp.send 3 60) (Life.probed (pos 0) Life.start refl refl) refl

simple_mynic_driver-Sound_example :
    Holds (HoldsBound bound) true [] sent × CanGoOn (mynic_driver kernel) (operate 5) true sent
unfolding ledger
simple_mynic_driver-Sound_example =
    simple_mynic_driver-Sound kernel 5 unbound sent true [] refl history
