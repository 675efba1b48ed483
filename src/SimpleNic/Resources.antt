-- ===== src/SimpleNic/Resources.antt =====
-- What `mynic_probe` and `mynic_remove` of network/simple_nic.c acquire and release.
use char_driver_scull.Base.{◌≡◌, some, ◌∷◌, arith}
use char_driver_scull.Kernel.{Kernel, World}
use char_driver_scull.Kernel.Ledger.{Resource, Held, ledger}
use char_driver_scull.Kernel.Outcome.{Atomic}
use char_driver_scull.SimpleNic.{Vars, mynic_probe}

abbrev pub bound : Vars → Held → Held
bound v rs = Resource.registered v.drvdata ∷ Resource.netdev v.drvdata ∷ rs

module _ (k : Kernel) where
  pub mynic_probe-Atomic :
      (w : World Vars) (rs : Held) → ledger w.log ≡ some rs → Atomic bound rs (mynic_probe k w)
  unfolding mynic_probe ledger
  mynic_probe-Atomic w rs h = ground arith
