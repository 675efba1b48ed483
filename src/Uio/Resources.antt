-- ===== src/Uio/Resources.antt =====
-- What `dummy_probe` and `dummy_remove` of uio/simple_uio_driver.c acquire and release.
use char_driver_scull.Base.{
  ℕ, ℤ, Bool, true, false, ◌≡◌, some, List, [], ◌∷◌, arith, if◌then◌else◌, nonzero, inl, inr,
  Bool-cases,
}
use char_driver_scull.Kernel.{Kernel, Event, World, Run, answered, answered_number}
use char_driver_scull.Kernel.Interface.{Call}
use char_driver_scull.Kernel.Ledger.{Resource, Held, ledger}
use char_driver_scull.Kernel.Pci.{PciDev}
use char_driver_scull.Uio.{Vars, request_line, choose_irq, map_bar, dummy_probe}

-- Whether the latest answer to `pci_enable_msix_exact` was a success.
abbrev pub msix_on : List Event → Bool
msix_on [] = false
msix_on (Event.returned (Call.pci_enable_msix_exact e n) z ∷ log) =
    if nonzero z then false else true
msix_on (_ ∷ log) = msix_on log

abbrev pub with_msix : Bool → Held → Held
with_msix b rs = if b then Resource.msix ∷ rs else rs

abbrev pub mapped : ℕ → Held → Held
mapped p rs = Resource.mapping p ∷ Resource.regions ∷ Resource.pci_enabled ∷ rs

-- What the driver holds while it is bound.
abbrev pub bound : ℕ → Bool → Vars → Held → Held
bound info msix v rs =
    Resource.uio info ∷ Resource.irq_line v.dummy_irq info ∷ with_msix msix (mapped v.mmio_base rs)

-- What a failed probe leaves behind, and what a successful one sets up.
abbrev pub Outcome : ℕ → Held → Run Vars ℤ → Type 0
Outcome info rs Run.fault = ⊥
Outcome info rs (Run.ok ret w) =
    if nonzero ret
    then ledger w.log ≡ some (with_msix (msix_on w.log) rs)
    else (ledger w.log ≡ some (bound info (msix_on w.log) w.vars rs))
      × (w.vars.drvdata ≡ info)
      × (w.vars.dummy_uio_info.irq ≡ w.vars.dummy_irq)

module _ (k : Kernel) (info : ℕ) (pdev : PciDev) where
  request_line-Outcome :
      (start len : ℕ) (w : World Vars) (rs : Held) (msix : Bool)
      → msix_on w.log ≡ msix
      → ledger w.log ≡ some (with_msix msix (mapped w.vars.mmio_base rs))
      → Outcome info rs (request_line k info pdev start len w)
  unfolding request_line ledger
  request_line-Outcome start len w rs true on h = ground arith
  request_line-Outcome start len w rs false on h = ground arith

  choose_irq-Outcome :
      (start len : ℕ) (w : World Vars) (rs : Held)
      → msix_on w.log ≡ false
      → ledger w.log ≡ some (mapped w.vars.mmio_base rs)
      → Outcome info rs (choose_irq k info pdev start len w)
  unfolding choose_irq ledger
  choose_irq-Outcome start len w rs off h =
      elim (Bool-cases (nonzero (k.status w.log (Call.pci_enable_msix_exact 0 1)))) [
        | inl e ↦ request_line-Outcome start len _ rs false (rw e) (ground arith)
        | inr e ↦ request_line-Outcome start len _ rs true (rw e) (ground arith)
      ]

  map_bar-Outcome :
      (w : World Vars) (rs : Held)
      → msix_on w.log ≡ false
      → ledger w.log ≡ some (Resource.regions ∷ Resource.pci_enabled ∷ rs)
      → Outcome info rs (map_bar k info pdev w)
  unfolding map_bar ledger
  map_bar-Outcome w rs off h =
      let s = answered_number k (Call.pci_resource_start 0) w in
      let l = answered_number k (Call.pci_resource_len 0) s in
      let m = answered_number k (Call.pci_ioremap_bar 0) l in
      let p = k.number l.log (Call.pci_ioremap_bar 0) in
      ground (
        arith,
        choose_irq-Outcome (k.number w.log (Call.pci_resource_start 0))
            (k.number s.log (Call.pci_resource_len 0))
            (record m { vars = record m.vars { mmio_base = p } }) rs,
      )

  -- `dummy_probe`, with MSI-X off, does not fault. When it succeeds it holds the device, its
  -- regions, the mapping, MSI-X if that was enabled, the interrupt line and the UIO device, and
  -- the UIO structure has that line. When it fails it holds what it held before, and MSI-X as
  -- well if that had been enabled: no error path disables it.
  pub dummy_probe-Outcome :
      (w : World Vars) (rs : Held)
      → msix_on w.log ≡ false
      → ledger w.log ≡ some rs
      → Outcome info rs (dummy_probe k info pdev w)
  unfolding dummy_probe ledger
  dummy_probe-Outcome w rs off h =
      let e = answered k Call.pci_enable_device w in
      ground (arith, map_bar-Outcome (answered k Call.pci_request_regions e) rs)
