-- ===== src/Nic/State.antt =====
-- The structures of network/nic.c, and what it takes from the hardware.
use char_driver_scull.Base.{ℕ, ◌/◌, ◌%◌, ◌^◌, Bool, List, ◌==◌}

-- MYNIC_TX_RING_SIZE
abbrev pub ring_size : ℕ
ring_size = 128

-- `struct mynic_priv`; the receive ring is not used by the sources.
pub record Priv : Type 0 where
  pub mmio : ℕ
  pub netdev : ℕ
  pub tx_skbuff : List ℕ
  pub tx_head : ℕ
  pub tx_tail : ℕ

-- What the sources take from the hardware's documentation: register offsets and bits.
pub record Hardware : Type 0 where
  pub control_reg : ℕ
  pub tx_reg : ℕ
  pub intr_status_reg : ℕ
  pub kick_tx : ℕ
  pub enable_irq_rx : ℕ
  pub enable_rx_irq : ℕ
  -- the numbers of the bits RX_INTR and TX_INTR
  pub rx_intr : ℕ
  pub tx_intr : ℕ

pub data IrqReturn : Type 0 where
  irq_none irq_handled : IrqReturn

pub data NetdevTx : Type 0 where
  netdev_tx_ok netdev_tx_busy : NetdevTx

abbrev pub has_bit : ℕ → ℕ → Bool
has_bit x i = x / 2 ^ i % 2 == 1
