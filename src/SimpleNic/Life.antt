-- ===== src/SimpleNic/Life.antt =====
-- The life of a device under the driver of network/simple_nic.c.
use char_driver_scull.Base.{ℕ, Bool, some, ◌≡◌, arith}
use char_driver_scull.Kernel.{Kernel, World, M, pure, ◌>>=◌}
use char_driver_scull.Kernel.Driver.{
  After, Life, CanGoOn, Holds, HoldsBound, IsBalanced, Life-Sound, Atomic-After, Leaves-After,
}
use char_driver_scull.Kernel.Ledger.{Held, ledger}
use char_driver_scull.Kernel.NetDevice.{NetOp}
use char_driver_scull.Kernel.Outcome.{Leaves}
use char_driver_scull.SimpleNic.{
  Vars, mynic_driver, mynic_ops, mynic_probe, mynic_remove, mynic_open, mynic_stop, mynic_xmit,
}
use char_driver_scull.SimpleNic.Resources.{bound, mynic_probe-Atomic}

-- A call through the table of the network device at `dev`.
abbrev pub operate : (dev : ℕ) → NetOp → M Vars (Unit {0})
operate dev NetOp.up = do _ ← (mynic_ops dev).ndo_open; pure tt
operate dev NetOp.down = do _ ← (mynic_ops dev).ndo_stop; pure tt
operate dev (NetOp.send skb len) = do _ ← (mynic_ops dev).ndo_start_xmit skb len; pure tt

operate-HoldsBound :
    (dev : ℕ) (op : NetOp) (w : World Vars) (rs : Held)
    → HoldsBound bound rs w
    → After (λ _ w'. HoldsBound bound rs w') (operate dev op w)
unfolding mynic_open mynic_stop mynic_xmit ledger
operate-HoldsBound dev NetOp.up w rs h = ground arith
operate-HoldsBound dev NetOp.down w rs h = ground arith
operate-HoldsBound dev (NetOp.send skb len) w rs h = ground arith

module _ (k : Kernel) (dev : ℕ) where
  pub mynic_remove-Leaves :
      (w : World Vars) (rs : Held) → HoldsBound bound rs w → Leaves rs (mynic_remove k w)
  unfolding mynic_remove ledger
  mynic_remove-Leaves w rs h = ground arith

  mynic_driver-IsBalanced : IsBalanced (mynic_driver k) (operate dev) (HoldsBound bound)
  mynic_driver-IsBalanced = record {
    probe_law = λ w rs h. Atomic-After bound rs (mynic_probe k w) (mynic_probe-Atomic k w rs h);
    operate_law = operate-HoldsBound dev;
    remove_law = λ w rs h. Leaves-After rs (mynic_remove k w) (mynic_remove-Leaves w rs h);
  }

  -- In every history of probes, openings, stops, transmissions and removals, with any failures of the
  -- probes: while the device is not bound, the driver holds nothing beyond `rs`, what was held at the
  -- start; while it is bound, it holds the network device and its registration on top of that. The
  -- next call that the kernel may make does not fault.
  pub simple_mynic_driver-Sound :
      (begin w : World Vars) (b : Bool) (rs : Held)
      → ledger begin.log ≡ some rs
      → Life (mynic_driver k) (operate dev) begin b w
      → Holds (HoldsBound bound) b rs w × CanGoOn (mynic_driver k) (operate dev) b w
  simple_mynic_driver-Sound =
      Life-Sound (mynic_driver k) (operate dev) (HoldsBound bound) mynic_driver-IsBalanced
