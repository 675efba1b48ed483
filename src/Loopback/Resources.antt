-- ===== src/Loopback/Resources.antt =====
-- What `myloop_init` and `myloop_exit` of network/simple_loopback.c acquire and release.
use char_driver_scull.Base.{ℤ, ◌≡◌, false, some, ◌∷◌, arith, if◌then◌else◌, nonzero, ◌==◌}
use char_driver_scull.Kernel.{Kernel, World, Run}
use char_driver_scull.Kernel.Interface.{Call}
use char_driver_scull.Kernel.Ledger.{Resource, Held, ledger}
use char_driver_scull.Kernel.Outcome.{Leaves}
use char_driver_scull.Loopback.{Vars, myloop_init, myloop_exit}

abbrev pub bound : Vars → Held → Held
bound v rs = Resource.registered v.myloop_dev ∷ Resource.netdev v.myloop_dev ∷ rs

-- An initialisation that fails to register keeps the device that it has allocated.
abbrev pub Loaded : Held → Run Vars ℤ → Type 0
Loaded rs Run.fault = ⊥
Loaded rs (Run.ok err w) =
    if nonzero err
    then ledger w.log ≡ some (Resource.netdev w.vars.myloop_dev ∷ rs)
    else ledger w.log ≡ some (bound w.vars rs)

module _ (k : Kernel) (w : World Vars) (rs : Held) where
  -- `myloop_init`, when `alloc_netdev` gives a device, holds the device and its registration when
  -- it returns 0, and when the registration fails it still holds the device.
  pub myloop_init-Loaded :
      ledger w.log ≡ some rs
      → (k.number w.log Call.alloc_netdev == 0) ≡ false
      → Loaded rs (myloop_init k w)
  unfolding myloop_init ledger
  myloop_init-Loaded h nz = ground arith

  -- `myloop_exit`, called with what a successful `myloop_init` holds on top of `rs`, leaves `rs`.
  pub myloop_exit-Leaves : ledger w.log ≡ some (bound w.vars rs) → Leaves rs (myloop_exit k w)
  unfolding myloop_exit ledger
  myloop_exit-Leaves h = ground arith
