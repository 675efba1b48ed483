-- ===== src/Uio/Life.antt =====
-- The life of a device under the driver of uio/simple_uio_driver.c.
use char_driver_scull.Base.{
  ℕ, ◌==◌, zero, suc, ◌≤◌, ℤ, Bool, true, false, ◌≡◌, refl, ap, ◌∙◌, some, none, ◌∷◌, arith,
  if◌then◌else◌, nonzero, inl, inr, Bool-cases, not,
}
use char_driver_scull.Kernel.{Kernel, World, Run, M, pure, ◌>>=◌, answered, answered_number}
use char_driver_scull.Kernel.Driver.{
  Life, CanGoOn, IsKept, Life-Safe, failures, counted, After, After-map, Leaves-After,
}
use char_driver_scull.Kernel.Interface.{Call}
use char_driver_scull.Kernel.Ledger.{Resource, Held, ledger, release}
use char_driver_scull.Kernel.Outcome.{Leaves}
use char_driver_scull.Kernel.Pci.{PciDev}
use char_driver_scull.Uio.{
  Vars, dummy_irqcontrol, request_line, choose_irq, map_bar, dummy_probe, dummy_remove,
  dummy_uio_driver,
}
use char_driver_scull.Uio.Irq.{dummy_handler}
use char_driver_scull.Uio.Resources.{with_msix, mapped, bound}

-- A failed probe leaves what was held, and MSI-X if that was enabled; a successful one holds what
-- the driver needs.
abbrev pub KeptWith : Bool → ℕ → Held → Run Vars ℤ → Type 0
KeptWith msix info rs Run.fault = ⊥
KeptWith msix info rs (Run.ok ret w) =
    if nonzero ret
    then ledger w.log ≡ some (with_msix msix rs)
    else ledger w.log ≡ some (bound info msix w.vars rs) × w.vars.drvdata ≡ info

abbrev pub Kept : ℕ → Held → Run Vars ℤ → Type 0
Kept info rs run = (msix : Bool) × KeptWith msix info rs run

-- What is left of `rs` when MSI-X is disabled.
abbrev pub without_msix : Held → Held
without_msix rs = elim (release Resource.msix rs) [ none ↦ rs | some rs' ↦ rs' ]

module _ (k : Kernel) (info : ℕ) (pdev : PciDev) where
  request_line-Kept :
      (start len : ℕ) (w : World Vars) (rs : Held) (msix : Bool)
      → ledger w.log ≡ some (with_msix msix (mapped w.vars.mmio_base rs))
      → KeptWith msix info rs (request_line k info pdev start len w)
  unfolding request_line ledger
  request_line-Kept start len w rs true h = ground arith
  request_line-Kept start len w rs false h = ground arith

  choose_irq-Kept :
      (start len : ℕ) (w : World Vars) (rs : Held)
      → ledger w.log ≡ some (mapped w.vars.mmio_base rs)
      → Kept info rs (choose_irq k info pdev start len w)
  unfolding choose_irq ledger
  choose_irq-Kept start len w rs h =
      elim (Bool-cases (nonzero (k.status w.log (Call.pci_enable_msix_exact 0 1)))) [
        | inl e ↦ (false, request_line-Kept start len _ rs false (ground arith))
        | inr e ↦ (true, request_line-Kept start len _ rs true (ground arith))
      ]

  map_bar-Kept :
      (w : World Vars) (rs : Held)
      → ledger w.log ≡ some (Resource.regions ∷ Resource.pci_enabled ∷ rs)
      → Kept info rs (map_bar k info pdev w)
  unfolding map_bar ledger
  map_bar-Kept w rs h =
      let s = answered_number k (Call.pci_resource_start 0) w in
      let l = answered_number k (Call.pci_resource_len 0) s in
      let m = answered_number k (Call.pci_ioremap_bar 0) l in
      let p = k.number l.log (Call.pci_ioremap_bar 0) in
      elim (Bool-cases (p == 0)) [
        | inl e ↦ (false, ground arith)
        | inr e ↦ rw e (
            choose_irq-Kept (k.number w.log (Call.pci_resource_start 0))
              (k.number s.log (Call.pci_resource_len 0))
              (record m { vars = record m.vars { mmio_base = p } }) rs (ground arith))
      ]

  dummy_probe-Kept :
      (w : World Vars) (rs : Held)
      → ledger w.log ≡ some rs
      → Kept info rs (dummy_probe k info pdev w)
  unfolding dummy_probe ledger
  dummy_probe-Kept w rs h =
      let e = answered k Call.pci_enable_device w in
      elim (Bool-cases (nonzero (k.status w.log Call.pci_enable_device))) [
        | inl f ↦ (false, ground arith)
        | inr f ↦ rw f (elim (Bool-cases (nonzero (k.status e.log Call.pci_request_regions))) [
          | inl g ↦ (false, ground arith)
          | inr g ↦ rw g (map_bar-Kept (answered k Call.pci_request_regions e) rs (ground arith))
        ])
      ]

  -- With or without MSI-X.
  dummy_remove-Leaves :
      (w : World Vars) (rs : Held) (msix : Bool)
      → w.vars.drvdata ≡ info
      → ledger w.log ≡ some (bound info msix w.vars rs)
      → Leaves (without_msix (with_msix msix rs)) (dummy_remove k info w)
  unfolding dummy_remove ledger
  dummy_remove-Leaves w rs msix d h = ground arith

-- MSI-X has been enabled `n` times and not disabled.
abbrev pub enabled : ℕ → Held → Held
enabled zero rs = rs
enabled (suc n) rs = Resource.msix ∷ enabled n rs

without-enabled :
    (rs : Held) (n : ℕ) (msix : Bool)
    → release Resource.msix rs ≡ none
    → (m : ℕ) × (m ≤ n) × (without_msix (with_msix msix (enabled n rs)) ≡ enabled m rs)
without-enabled rs n true free = (n, omega arith, refl)
without-enabled rs zero false free = (0, omega arith, rw (free, without_msix) refl)
without-enabled rs (suc n) false free = (n, omega arith, refl)

-- What is held after `failed` failures of the probe, while the device is not bound and while it is.
abbrev pub Leaked : ℕ → Held → ℕ → Bool → World Vars → Type 0
Leaked info rs failed false w = (n : ℕ) × (n ≤ failed) × (ledger w.log ≡ some (enabled n rs))
Leaked info rs failed true w =
    (n : ℕ) × (n ≤ failed)
    × (msix : Bool) × (ledger w.log ≡ some (bound info msix w.vars (enabled n rs)))
    × (w.vars.drvdata ≡ info)

-- What user space and the hardware can make the driver do: switch the interrupt, and raise it.
pub data Op : Type 0 where
  switch : (irq_on : ℤ) → Op
  raised : (irq : ℕ) → Op

module _ (k : Kernel) (info : ℕ) (pdev : PciDev) where
  abbrev pub operate : Op → M Vars (Unit {0})
  operate (Op.switch irq_on) = do _ ← dummy_irqcontrol k info irq_on; pure tt
  operate (Op.raised irq) = do _ ← pure (dummy_handler irq info); pure tt

  Kept-Leaked :
      (rs : Held) (failed n : ℕ) (run : Run Vars ℤ)
      → n ≤ failed
      → Kept info (enabled n rs) run
      → After (λ ret w. Leaked info rs (counted ret failed) (not (nonzero ret)) w) run
  Kept-Leaked rs failed n Run.fault h (msix, p) = p
  Kept-Leaked rs failed n (Run.ok ret w) h (msix, p) = elim (Bool-cases (nonzero ret)) [
    | inl e ↦ rw e (leaked msix h (rw e at p))
    | inr e ↦ let (held, d) = rw e at p in rw e (n, h, msix, held, d)
  ]
    where
      leaked :
          (msix : Bool)
          → n ≤ failed
          → ledger w.log ≡ some (with_msix msix (enabled n rs))
          → Leaked info rs (suc failed) false w
      leaked false h e = (n, omega arith, e)
      leaked true h e = (suc n, omega arith, e)

  remove-Leaked :
      (rs : Held) (failed : ℕ) (w : World Vars)
      → release Resource.msix rs ≡ none
      → Leaked info rs failed true w
      → After (λ _ w'. Leaked info rs failed false w') (dummy_remove k info w)
  remove-Leaked rs failed w free (n, le, msix, held, d) =
      let (m, less, e) = without-enabled rs n msix free in
      After-map (λ w'. ledger w'.log ≡ some (without_msix (with_msix msix (enabled n rs))))
        (λ w'. Leaked info rs failed false w') (dummy_remove k info w)
        (λ w' h. (m, omega arith, h ∙ ap some e))
        (Leaves-After _ (dummy_remove k info w)
          (dummy_remove-Leaves k info pdev w (enabled n rs) msix d held))

  operate-Leaked :
      (rs : Held) (op : Op) (failed : ℕ) (w : World Vars)
      → Leaked info rs failed true w
      → After (λ _ w'. Leaked info rs failed true w') (operate op w)
  unfolding dummy_irqcontrol ledger
  operate-Leaked rs (Op.raised irq) failed w h = h
  operate-Leaked rs (Op.switch (ℤ.pos zero)) failed w (n, le, msix, held, d) =
      (n, le, msix, ground arith, d)
  operate-Leaked rs (Op.switch (ℤ.pos (suc i))) failed w (n, le, msix, held, d) =
      (n, le, msix, ground arith, d)
  operate-Leaked rs (Op.switch (ℤ.negsuc i)) failed w (n, le, msix, held, d) =
      (n, le, msix, ground arith, d)

  dummy_uio_driver-IsKept :
      (rs : Held)
      → release Resource.msix rs ≡ none
      → IsKept (dummy_uio_driver k info pdev) operate (Leaked info rs)
  dummy_uio_driver-IsKept rs free = record {
    probe_law = λ failed w (n, le, held).
        Kept-Leaked rs failed n (dummy_probe k info pdev w) le
          (dummy_probe-Kept k info pdev w (enabled n rs) held);
    operate_law = operate-Leaked rs;
    remove_law = λ failed w h. remove-Leaked rs failed w free h;
  }

  -- In every history of probes, interrupts, switches of the interrupt and removals, from a state in
  -- which `rs` is held and MSI-X is off: while the device is not bound, `rs` is held, and MSI-X as
  -- many times as there were failed probes, or fewer; while it is bound, what the driver needs is
  -- held on top of that. Nothing else is lost, with no failed probe nothing at all, and the next
  -- call that the PCI core may make does not fault.
  pub dummy_uio_driver-Leaked :
      (begin w : World Vars) (b : Bool) (rs : Held)
      → release Resource.msix rs ≡ none
      → ledger begin.log ≡ some rs
      → (l : Life (dummy_uio_driver k info pdev) operate begin b w)
      → Leaked info rs (failures (dummy_uio_driver k info pdev) operate l) b w
        × CanGoOn (dummy_uio_driver k info pdev) operate b w
  dummy_uio_driver-Leaked begin w b rs free held l =
      Life-Safe (dummy_uio_driver k info pdev) operate (Leaked info rs)
        (dummy_uio_driver-IsKept rs free) begin w b l (0, omega arith, held)
