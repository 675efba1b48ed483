-- ===== src/Nic/Life.antt =====
-- The life of a device under the driver of network/nic.c.
use char_driver_scull.Base.{ℕ, ◌+◌, Bool, List, [], ◌∷◌, some, ◌≡◌, refl, ◌∙◌, arith}
use char_driver_scull.Kernel.{Kernel, Event, World, Run, M, pure, ◌>>=◌, answered_number, note}
use char_driver_scull.Kernel.Interface.{Call}
use char_driver_scull.Kernel.Driver.{
  After, Life, CanGoOn, Holds, HoldsBound, IsBalanced, Life-Sound, Atomic-After, Leaves-After,
}
use char_driver_scull.Kernel.Ledger.{Resource, Held, ledger}
use char_driver_scull.Kernel.NetDevice.{NetOp}
use char_driver_scull.Kernel.Pci.{PciDev}
use char_driver_scull.Nic.{
  Priv, Hardware, push, mynic_driver, mynic_netdev_ops, mynic_probe, mynic_remove, mynic_open,
  mynic_stop, mynic_start_xmit, complete, complete_all, complete_tx, mynic_interrupt, receive,
  mynic_poll,
}
use char_driver_scull.Nic.Resources.{bound, mynic_probe-Atomic, mynic_remove-Leaves}

-- What runs while the device is bound: the network device's functions, interrupts and polls.
pub data Op : Type 0 where
  net : NetOp → Op
  interrupt : (handles : List ℕ) → Op
  poll : (budget : ℕ) (lens : List ℕ) → Op

-- Nothing is acquired or released, and the device's addresses stay.
abbrev Steady : {A : Type 0} → World Priv → Run Priv A → Type 0
Steady w Run.fault = ⊥
Steady w (Run.ok a w') =
    (ledger w'.log ≡ ledger w.log) × (w'.vars.mmio ≡ w.vars.mmio) × (w'.vars.netdev ≡ w.vars.netdev)

Steady-trans :
    {A B : Type 0} (w : World Priv) (r : Run Priv A) (f : A → M Priv B)
    → Steady w r
    → ((a : A) (v : World Priv) → ledger v.log ≡ ledger w.log → Steady v (f a v))
    → Steady w (((λ _. r) >>= f) w)
Steady-trans w Run.fault f s next = s
Steady-trans w (Run.ok a v) f (l, m, n) next = ground (arith, next a v l, l, m, n)

module _ (k : Kernel) (hw : Hardware) where
  abbrev pub operate : Op → M Priv (Unit {0})
  operate (net NetOp.up) = do _ ← (mynic_netdev_ops k hw).ndo_open; pure tt
  operate (net NetOp.down) = do _ ← (mynic_netdev_ops k hw).ndo_stop; pure tt
  operate (net (NetOp.send skb len)) = do
    _ ← (mynic_netdev_ops k hw).ndo_start_xmit skb len
    pure tt
  operate (interrupt handles) = do _ ← mynic_interrupt k hw handles; pure tt
  operate (poll budget lens) = do _ ← mynic_poll k hw budget lens; pure tt

  complete-Steady :
      (handle : ℕ) (w : World Priv) (rs : Held)
      → ledger w.log ≡ some rs
      → Steady w (complete k hw handle w)
  unfolding complete ledger
  complete-Steady handle w rs h = ground arith

  receive-Steady :
      (budget n : ℕ) (lens : List ℕ) (w : World Priv) (rs : Held)
      → ledger w.log ≡ some rs
      → Steady w (receive k hw budget n lens w)
  unfolding receive ledger
  receive-Steady budget n [] w rs h = (refl, refl, refl)
  receive-Steady budget n (len ∷ lens) w rs h =
      let c = Call.netdev_alloc_skb w.vars.netdev len in
      let s = k.number w.log c in
      let a =
        note (Event.ran (Call.netif_receive_skb s))
          (note (Event.ran (Call.eth_type_trans s)) (answered_number k c w)) in
      ground (arith, receive-Steady budget (n + 1) lens a rs)

  complete_all-Steady :
      (handles : List ℕ) (w : World Priv) (rs : Held)
      → ledger w.log ≡ some rs
      → Steady w (complete_all k hw handles w)
  unfolding complete_all
  complete_all-Steady [] w rs h = (refl, refl, refl)
  complete_all-Steady (x ∷ handles) w rs h =
      Steady-trans w (complete k hw x w) (λ _. complete_all k hw handles) (complete-Steady x w rs h)
        (λ _ v l. complete_all-Steady handles v rs (l ∙ h))

  complete_tx-Steady :
      (netdev : ℕ) (handles : List ℕ) (w : World Priv) (rs : Held)
      → ledger w.log ≡ some rs
      → Steady w (complete_tx k hw netdev handles w)
  unfolding complete_tx ledger
  complete_tx-Steady netdev handles w rs h =
      let locked = note (Event.ran Call.spin_lock) w in
      ground (arith, complete_all-Steady handles locked (Resource.lock ∷ rs))

  mynic_interrupt-Steady :
      (handles : List ℕ) (w : World Priv) (rs : Held)
      → ledger w.log ≡ some rs
      → Steady w (mynic_interrupt k hw handles w)
  unfolding mynic_interrupt ledger
  mynic_interrupt-Steady handles w rs h =
      let c = Call.ioread (w.vars.mmio + hw.intr_status_reg) in
      let a =
        note (Event.ran (Call.iowrite (k.number w.log c) (w.vars.mmio + hw.intr_status_reg)))
          (answered_number k c w) in
      let n = note (Event.ran (Call.napi_schedule w.vars.netdev)) a in
      ground (
        arith,
        complete_tx-Steady w.vars.netdev handles a rs,
        complete_tx-Steady w.vars.netdev handles n rs,
      )

  mynic_poll-Steady :
      (budget : ℕ) (lens : List ℕ) (w : World Priv) (rs : Held)
      → ledger w.log ≡ some rs
      → Steady w (mynic_poll k hw budget lens w)
  unfolding mynic_poll ledger
  mynic_poll-Steady budget lens w rs h = ground (arith, receive-Steady budget 0 lens w rs)

  operate-Steady :
      (op : Op) (w : World Priv) (rs : Held) → ledger w.log ≡ some rs → Steady w (operate op w)
  unfolding mynic_open mynic_stop mynic_start_xmit push ledger
  operate-Steady (net NetOp.up) w rs h = ground arith
  operate-Steady (net NetOp.down) w rs h = ground arith
  operate-Steady (net (NetOp.send skb len)) w rs h = ground arith
  operate-Steady (interrupt handles) w rs h = ground (arith, mynic_interrupt-Steady handles w rs)
  operate-Steady (poll budget lens) w rs h = ground (arith, mynic_poll-Steady budget lens w rs)

-- What a steady run keeps.
Steady-HoldsBound :
    {A : Type 0} (pdev : PciDev) (w : World Priv) (r : Run Priv A) (rs : Held)
    → HoldsBound (bound pdev) rs w
    → Steady w r
    → After (λ _ w'. HoldsBound (bound pdev) rs w') r
Steady-HoldsBound pdev w Run.fault rs h s = s
Steady-HoldsBound pdev w (Run.ok a v) rs h (l, m, n) = rw (m, n) (l ∙ h)

module _ (k : Kernel) (hw : Hardware) (pdev : PciDev) where
  mynic_driver-IsBalanced :
      IsBalanced (mynic_driver k pdev) (operate k hw) (HoldsBound (bound pdev))
  mynic_driver-IsBalanced = record {
    probe_law = λ w rs h.
        Atomic-After (bound pdev) rs (mynic_probe k pdev w) (mynic_probe-Atomic k pdev w rs h);
    operate_law = λ op w rs h.
        Steady-HoldsBound pdev w (operate k hw op w) rs h
          (operate-Steady k hw op w (bound pdev w.vars rs) h);
    remove_law =
        λ w rs h. Leaves-After rs (mynic_remove k pdev w) (mynic_remove-Leaves k pdev w rs h);
  }

  -- In every history of probes, openings, stops, transmissions, interrupts, polls and removals, with
  -- any failures of the probes and any answers of the hardware: of the enabled device, the region,
  -- the mapping, the network device and its registration, the interrupt line, the NAPI instance and
  -- the lock, the driver holds nothing beyond `rs`, what was held of them at the start, while the
  -- device is not bound; while it is bound, it holds each of them but the lock on top of that. The
  -- next call that the kernel may make does not fault. Buffers and their DMA mappings are not
  -- counted here: a removal leaves those in flight.
  pub mynic_driver-Sound :
      (begin w : World Priv) (b : Bool) (rs : Held)
      → ledger begin.log ≡ some rs
      → Life (mynic_driver k pdev) (operate k hw) begin b w
      → Holds (HoldsBound (bound pdev)) b rs w × CanGoOn (mynic_driver k pdev) (operate k hw) b w
  mynic_driver-Sound =
      Life-Sound (mynic_driver k pdev) (operate k hw) (HoldsBound (bound pdev))
        mynic_driver-IsBalanced
