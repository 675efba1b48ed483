-- ===== src/UserApp/Flow.antt =====
-- What dma_user/user_app.c prints.
use mathlib.Core.List.{reverse, reverse-append, append_assoc, append-nil}
use char_driver_scull.Base.{
  negative, Bool-cases, inl, inr, ℕ, ℤ, ◌⊎◌, zero, suc, ◌-◌, ◌≤◌, ◌<◌, ◌≡◌, ◌≢◌, refl, ◌∙◌, ap, pos,
  nonzero, unsigned, List, [], ◌∷◌, ◌++◌, arith, if◌then◌else◌, ltb, false, length,
  length-replicate, replicate, drop, codes,
}
use char_driver_scull.Kernel.{Kernel, Event, World, Run, answered, note}
use char_driver_scull.Kernel.Interface.{Call}
use char_driver_scull.SimpleDma.{Vars, dma_buffer_size, simple_dma_ioctl, start_transfer}
use char_driver_scull.SimpleDma.Ioctl.{reversed, simple_dma_ioctl_lem}
use char_driver_scull.UserApp.Mapping.{address, remapped, map_buffer-cases}
use char_driver_scull.UserApp.{App, message, c_string, write_message, store_message, transfer, main}

times : {n m : ℕ} (v : ℕ) → n ≡ m → replicate n v ≡ replicate m v
times v e = ap (λ k. replicate k v) e

drop-replicate : (n m v : ℕ) → drop n (replicate m v) ≡ replicate (m - n) v
drop-replicate zero m v = times {n = m} {m = m - 0} v (omega arith)
drop-replicate (suc n) zero v = times {n = 0} {m = 0 - suc n} v (omega arith)
drop-replicate (suc n) (suc m) v =
    drop-replicate n m v ∙ times {n = m - n} {m = suc m - suc n} v (omega arith)

drop-length : (xs : List ℕ) → drop (length xs) xs ≡ []
drop-length [] = refl
drop-length (x ∷ xs) = drop-length xs

replicate-snoc : (n v : ℕ) → v ∷ replicate n v ≡ replicate n v ++ (v ∷ [])
replicate-snoc zero v = refl
replicate-snoc (suc n) v = ap (λ l. v ∷ l) (replicate-snoc n v)

-- The text of the message.
abbrev pub text : List ℕ
text = codes "Hello from user space!"

pub write_message_lem :
    (size : ℕ) (buf : List ℕ)
    → length buf ≡ size
    → write_message size buf ≡ text ++ (0 ∷ replicate (size - length message) 0)
unfolding write_message
write_message_lem size buf e =
    let clear : drop size buf ≡ [] = rw (← e) (drop-length buf) in
    rw (clear, append-nil, drop-replicate)

pub length-write_message :
    (size : ℕ) (buf : List ℕ)
    → length buf ≡ size
    → length message ≤ size
    → length (write_message size buf) ≡ size
length-write_message size buf e h =
    rw (write_message_lem size buf e)
      (omega (arith, length-replicate {A = ℕ} (size - length message) 0))

-- A buffer whose last byte is zero is reversed to one that begins with zero.
reversed-prints_nothing :
    (n : ℕ) (xs : List ℕ) → c_string (reverse (xs ++ (0 ∷ replicate n 0))) ≡ []
unfolding c_string
reversed-prints_nothing n xs =
    rw (replicate-snoc, ← append_assoc xs (replicate n 0) (0 ∷ []), reverse-append)

-- What the two `printf` calls show, in the program's last state.
abbrev pub Prints : World App → Run App ℤ → Type 0
Prints w Run.fault = ⊥
Prints w (Run.ok code w') =
    if nonzero code
    then (w'.vars.printed ≡ w.vars.printed) ⊎ (w'.vars.printed ≡ text ∷ w.vars.printed)
    else w'.vars.printed ≡ [] ∷ text ∷ w.vars.printed

shows_text :
    (size : ℕ) (buf : List ℕ) → length buf ≡ size → c_string (write_message size buf) ≡ text
unfolding c_string
shows_text size buf e = rw (write_message_lem size buf e)

shows_nothing :
    (size : ℕ) (buf : List ℕ) → length buf ≡ size → c_string (reverse (write_message size buf)) ≡ []
shows_nothing size buf e =
    rw (write_message_lem size buf e) (reversed-prints_nothing (size - length message) text)

pub store_message_lem :
    (size : ℕ) (w : World App)
    → length w.vars.driver.buffer ≡ size
    → store_message size w
      ≡ Run.ok tt (record w {
        vars = record w.vars {
          driver = record w.vars.driver { buffer = write_message size w.vars.driver.buffer };
        };
      })
unfolding store_message
store_message_lem size w e =
    let room : ltb (length w.vars.driver.buffer) size ≡ false = ground arith in rw room

module _ (k : Kernel) (size page_size : ℕ) where
  -- The state after the message has been written and printed.
  abbrev pub stored : App → App
  stored a = record {
    driver = record a.driver { buffer = write_message size a.driver.buffer };
    printed = c_string (write_message size a.driver.buffer) ∷ a.printed;
  }

  transfer-Prints :
      (fd p : ℕ) (w : World App)
      → 0 < page_size
      → size ≡ dma_buffer_size page_size
      → length message ≤ size
      → length w.vars.driver.buffer ≡ size
      → w.vars.driver.dma_buffer_virt ≢ 0
      → Prints w (transfer k size page_size fd p w)
  unfolding transfer
  transfer-Prints fd p w h e m l v = rw (fits) (
      ground (
        arith,
        store_message_lem size w l,
        sent,
        shows_text size w.vars.driver.buffer l,
        shows_nothing size w.vars.driver.buffer l,
      ))
    where
      d : World Vars
      d =
          answered k (Call.sys_ioctl fd start_transfer)
            (record { log = w.log; vars = (stored w.vars).driver })

      fits : ltb size (length message) ≡ false
      fits = ground arith

      sent : simple_dma_ioctl page_size start_transfer d ≡ Run.ok (pos 0) (reversed d)
      sent = ground (
        arith,
        length-write_message size w.vars.driver.buffer l m,
        simple_dma_ioctl_lem page_size start_transfer d,
      )

  -- With pages of at least one byte, and a driver's buffer of the size that the program maps, at
  -- an address that is not NULL and in which the message fits, `main` does not fault. With exit
  -- code 0 it has printed the text, and after the transfer the empty string: the reversed buffer
  -- begins with the zero bytes that followed the text. With another code it has printed nothing,
  -- or only the text.
  pub main-Prints :
      (w : World App)
      → 0 < page_size
      → size ≡ dma_buffer_size page_size
      → length message ≤ size
      → length w.vars.driver.buffer ≡ size
      → w.vars.driver.dma_buffer_virt ≢ 0
      → Prints w (main k size page_size w)
  unfolding main
  main-Prints w h e m l v =
      let o = answered k Call.sys_open w in
      let fd = unsigned (k.status w.log Call.sys_open) in
      let p = address k size page_size fd o in
      let mapped = note (Event.gave (Call.sys_mmap size fd) p) (remapped k size page_size fd o) in
      elim (Bool-cases (negative (k.status w.log Call.sys_open))) [
        | inl bad ↦ rw bad (inl refl)
        | inr good ↦ rw good (
            map_buffer-cases k size page_size fd o (Prints w) (inl refl) (inl refl)
              (λ _. transfer-Prints fd p mapped h e m l v))
      ]
