-- ===== src/Loopback/Stats.antt =====
-- The counters of network/simple_loopback.c.
use char_driver_scull.Base.{ℕ, suc, ◌+◌, ◌%◌, ◌^◌, ◌≡◌, List, [], ◌∷◌, arith}
use char_driver_scull.Kernel.{Event}
use char_driver_scull.Kernel.Interface.{Call}
use char_driver_scull.Kernel.NetDevice.{NetOp}
use char_driver_scull.Loopback.{NetDeviceStats}

-- The buffers that were delivered to the stack, the latest first.
abbrev pub delivered : List Event → List ℕ
delivered [] = []
delivered (Event.ran (Call.netif_rx skb) ∷ log) = skb ∷ delivered log
delivered (_ ∷ log) = delivered log

-- The lengths of buffers, each of which is read twice: the sum of what was read first.
abbrev pub first_read : List Event → ℕ
first_read [] = 0
first_read (Event.gave (Call.skb_len b) m ∷ Event.gave (Call.skb_len a) n ∷ log) =
    n + first_read log
first_read (_ ∷ log) = first_read log

-- The sum of what was read second.
abbrev pub second_read : List Event → ℕ
second_read [] = 0
second_read (Event.gave (Call.skb_len b) m ∷ Event.gave (Call.skb_len a) n ∷ log) =
    m + second_read log
second_read (_ ∷ log) = second_read log

-- How many buffers are sent.
abbrev pub sends : List NetOp → ℕ
sends [] = 0
sends (NetOp.send skb len ∷ ops) = suc (sends ops)
sends (_ ∷ ops) = sends ops

-- With the counters at 0 when the log was `begin`, and `n` buffers sent since then: as many packets
-- are counted as sent and as received, and the lengths that were read, with the wrap of an
-- `unsigned long`.
pub record Counted (begin log : List Event) (n : ℕ) (s : NetDeviceStats) : Type 0 where
  pub tx_packets : s.tx_packets ≡ n % 2 ^ 64
  pub tx_bytes : (first_read begin + s.tx_bytes) % 2 ^ 64 ≡ first_read log % 2 ^ 64
  pub rx_packets : s.rx_packets ≡ n % 2 ^ 64
  pub rx_bytes : (second_read begin + s.rx_bytes) % 2 ^ 64 ≡ second_read log % 2 ^ 64

-- A sum that wraps.
pub add_mod :
    (b x t r : ℕ)
    → (b + x) % 2 ^ 64 ≡ r % 2 ^ 64
    → (b + (x + t) % 2 ^ 64) % 2 ^ 64 ≡ (t + r) % 2 ^ 64
add_mod b x t r e = omega arith
