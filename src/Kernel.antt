-- ===== src/Kernel.antt =====
-- The kernel as the drivers see it: calls with the answers it gives, and the commands of a driver.
pub mod Ledger
pub mod Interface
pub mod Pci
pub mod Outcome
pub mod Driver
pub mod File
pub mod NetDevice
pub mod EthDev
use char_driver_scull.Base.{ℕ, ℤ, Bool, List, ◌∷◌, if◌then◌else◌}
use char_driver_scull.Kernel.Interface.{Call}

-- One call as it happened: with an `int`, with a pointer or another unsigned value, or with
-- nothing.
pub data Event : Type 0 where
  returned : Call → ℤ → Event
  gave : Call → ℕ → Event
  ran : Call → Event

-- The kernel is no part of the sources. All that is assumed is that it answers each call, as it
-- likes, by what has been called before; `out` is what it stores through a pointer argument.
-- The size of `struct cdev` is the kernel's, too.
pub record Kernel : Type 0 where
  pub status : List Event → Call → ℤ
  pub number : List Event → Call → ℕ
  pub out : List Event → Call → ℕ
  pub sizeof_cdev : ℕ

-- The calls so far, the latest first, and the driver's own variables.
pub record World (S : Type 0) : Type 0 where
  pub log : List Event
  pub vars : S

-- `fault` is an access through NULL, or another one that C leaves undefined.
pub data Run (S : Type 0) (A : Type 0) : Type 0 where
  ok : A → World S → Run S A
  fault : Run S A

abbrev pub M : Type 0 → Type 0 → Type 0
M S A = World S → Run S A

abbrev pub pure : {S A : Type 0} → A → M S A
pure a w = ok a w

infixl 5 ◌>>=◌ ◌>>◌
abbrev pub ◌>>=◌ : {S A B : Type 0} → M S A → (A → M S B) → M S B
◌>>=◌ m f w = elim (m w) [ ok a w' ↦ f a w' | fault ↦ fault ]

abbrev pub ◌>>◌ : {S B : Type 0} → M S (Unit {0}) → M S B → M S B
m >> n = m >>= λ _. n

abbrev pub crash : {S A : Type 0} → M S A
crash w = fault

module _ {S : Type 0} where
  abbrev pub get : M S S
  get w = ok w.vars w

  abbrev pub modify : (S → S) → M S (Unit {0})
  modify f w = ok tt (record w { vars = f w.vars })

  abbrev pub note : Event → World S → World S
  note e w = record w { log = e ∷ w.log }

  abbrev pub void : Call → M S (Unit {0})
  void c w = ok tt (note (Event.ran c) w)

module _ {S : Type 0} (k : Kernel) where
  -- The world after a call that has been answered.
  abbrev pub answered : Call → World S → World S
  answered c w = note (Event.returned c (k.status w.log c)) w

  abbrev pub answered_number : Call → World S → World S
  answered_number c w = note (Event.gave c (k.number w.log c)) w

  abbrev pub status : Call → M S ℤ
  status c w = ok (k.status w.log c) (answered c w)

  abbrev pub number : Call → M S ℕ
  number c w = ok (k.number w.log c) (answered_number c w)

  -- What the call `c`, the latest one, has stored through its pointer argument.
  abbrev pub out : Call → M S ℕ
  out c w = ok (k.out w.log c) w
