-- ===== src/Nic/Order.antt =====
-- What is on while the card of network/nic.c may interrupt.
use char_driver_scull.Base.{ℕ, ◌≡◌, Bool, true, false, List, [], ◌∷◌, ◌==◌, if◌then◌else◌}
use char_driver_scull.Kernel.{Event}
use char_driver_scull.Kernel.Interface.{Call}

-- Whether NAPI is enabled, the queue is started, and the control register at `reg` is not zero.
abbrev pub napi_on : List Event → Bool
napi_on [] = false
napi_on (Event.ran (Call.napi_enable dev) ∷ log) = true
napi_on (Event.ran (Call.napi_disable dev) ∷ log) = false
napi_on (_ ∷ log) = napi_on log

abbrev pub queue_on : List Event → Bool
queue_on [] = false
queue_on (Event.ran (Call.netif_start_queue dev) ∷ log) = true
queue_on (Event.ran (Call.netif_stop_queue dev) ∷ log) = false
queue_on (Event.ran (Call.netif_wake_queue dev) ∷ log) = true
queue_on (_ ∷ log) = queue_on log

abbrev pub hardware_on : ℕ → List Event → Bool
hardware_on reg [] = false
hardware_on reg (Event.ran (Call.iowrite v r) ∷ log) =
    if r == reg then (if v == 0 then false else true) else hardware_on reg log
hardware_on reg (_ ∷ log) = hardware_on reg log

-- At every moment, the hardware is on only while NAPI and the queue are.
abbrev pub Safe : ℕ → List Event → Type 0
Safe reg [] = Unit
Safe reg (e ∷ log) =
    (hardware_on reg (e ∷ log) ≡ true → (napi_on (e ∷ log) ≡ true) × (queue_on (e ∷ log) ≡ true))
    × Safe reg log
