-- ===== src/Peripheral/Transfer.antt =====
-- The simulated transfer of dma_kernel_with_peripheral/driver.c: bounds, the buffer, the registers.
use char_driver_scull.Base.{
  ℕ, zero, suc, ◌+◌, ◌≤◌, ◌≡◌, refl, ap, List, [], ◌∷◌, arith, length, replicate,
}
use char_driver_scull.Kernel.{Kernel, World, Run, answered_number}
use char_driver_scull.Kernel.Interface.{Call}
use char_driver_scull.Kernel.Ledger.{ledger}
use char_driver_scull.Peripheral.Reg
use char_driver_scull.Peripheral.{
  Priv, Direction, fill, memset_buffer, my_device_isr, transfer, my_device_simulate_dma,
  dma_buffer_size,
}

pub length-fill : (n v : ℕ) (xs : List ℕ) → length (fill n v xs) ≡ length xs
unfolding fill
length-fill zero v xs = refl
length-fill (suc n) v [] = refl
length-fill (suc n) v (x ∷ xs) = ap suc (length-fill n v xs)

-- All of a buffer is filled.
pub fill-replicate : (v : ℕ) (xs : List ℕ) → fill (length xs) v xs ≡ replicate (length xs) v
unfolding fill
fill-replicate v [] = refl
fill-replicate v (x ∷ xs) = ap (λ r. v ∷ r) (fill-replicate v xs)

-- What a function that neither acquires nor releases leaves as it was, beside the buffer's bytes.
abbrev pub Keeps : {A : Type 0} → World Priv → Run Priv A → Type 0
Keeps w Run.fault = ⊥
Keeps w (Run.ok a w') =
    (ledger w'.log ≡ ledger w.log)
    × (w'.vars.regs_base ≡ w.vars.regs_base)
    × (w'.vars.dma_buffer_virt ≡ w.vars.dma_buffer_virt)
    × (w'.vars.irq ≡ w.vars.irq)
    × (w'.vars.drvdata ≡ w.vars.drvdata)
    × (length w'.vars.buffer ≡ length w.vars.buffer)

module _ (k : Kernel) where
  my_device_isr-Keeps : (w : World Priv) → Keeps w (my_device_isr k w)
  unfolding my_device_isr ledger
  my_device_isr-Keeps w = ground arith

  memset_buffer-Keeps :
      (v n : ℕ) (w : World Priv) → n ≤ length w.vars.buffer → Keeps w (memset_buffer v n w)
  unfolding memset_buffer ledger
  memset_buffer-Keeps v n w h = ground (arith, length-fill n v w.vars.buffer)

module _ (k : Kernel) (page_size : ℕ) where
  transfer-Keeps :
      (d : Direction) (n : ℕ) (w : World Priv)
      → n ≤ length w.vars.buffer
      → Keeps w (transfer k page_size d n w)
  unfolding transfer my_device_isr ledger
  transfer-Keeps Direction.to_device n w h = ground arith
  transfer-Keeps Direction.from_device n w h = ground (arith, length-fill n 0xAA w.vars.buffer)

  -- The simulated transfer, whatever the registers answer, does not fault on a buffer of the
  -- allocated size. It stays within the buffer, acquires and releases nothing, and keeps the
  -- mapping, the buffer's address and length, the interrupt number and the driver data.
  pub my_device_simulate_dma-Keeps :
      (w : World Priv)
      → length w.vars.buffer ≡ dma_buffer_size page_size
      → Keeps w (my_device_simulate_dma k page_size w)
  unfolding my_device_simulate_dma ledger
  my_device_simulate_dma-Keeps w h =
      let c = answered_number k (Call.ioread (w.vars.regs_base + Reg.control)) w in
      let a = answered_number k (Call.ioread (w.vars.regs_base + Reg.dma_addr)) c in
      let n = k.number a.log (Call.ioread (w.vars.regs_base + Reg.dma_len)) in
      let l = answered_number k (Call.ioread (w.vars.regs_base + Reg.dma_len)) a in
      ground
        (arith, transfer-Keeps Direction.to_device n l, transfer-Keeps Direction.from_device n l)
