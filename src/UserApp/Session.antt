-- ===== src/UserApp/Session.antt =====
-- The module of dma_user/simple_dma_module.c loaded, dma_user/user_app.c run, and the module removed.
use char_driver_scull.Base.{
  negative, Bool-cases, inl, inr, refl, ℕ, ℤ, ◌⊎◌, ◌≤◌, ◌<◌, ◌≡◌, ◌≢◌, sym, ap, ◌∙◌, pos, false,
  some, List, [], ◌∷◌, arith, ltb, if◌then◌else◌, nonzero, unsigned, length,
}
use char_driver_scull.Kernel.{Kernel, Event, World, Run, M, pure, ◌>>=◌, ◌>>◌, answered, note}
use char_driver_scull.Kernel.Driver.{After}
use char_driver_scull.Kernel.Interface.{Call}
use char_driver_scull.Kernel.Ledger.{Held, ledger}
use char_driver_scull.Kernel.Outcome.{Leaves}
use char_driver_scull.SimpleDma.{
  Vars, dma_buffer_size, start_transfer, simple_dma_init, simple_dma_exit,
}
use char_driver_scull.SimpleDma.Ioctl.{simple_dma_ioctl_lem}
use char_driver_scull.SimpleDma.Resources.{ReturnsErrors, bound, simple_dma_exit-Leaves}
use char_driver_scull.SimpleDma.Settled.{Creates, Words, simple_dma_init-Settled}
use char_driver_scull.UserApp.Mapping.{address, remapped, map_buffer-cases}
use char_driver_scull.UserApp.{App, message, in_driver, transfer, main}
use char_driver_scull.UserApp.Flow.{
  text, Prints, stored, store_message_lem, length-write_message, main-Prints,
}
use char_driver_scull.UserApp.Descriptors.{Unmaps, main-Leaves}

-- What the module holds does not depend on the buffer's contents.
abbrev Keeps : ℕ → World App → Run App ℤ → Type 0
Keeps page_size w Run.fault = ⊥
Keeps page_size w (Run.ok code w') =
    (rs : Held) → bound page_size w'.vars.driver rs ≡ bound page_size w.vars.driver rs

module _ (k : Kernel) (size page_size : ℕ) where
  transfer-Keeps :
      (fd p : ℕ) (w : World App)
      → 0 < page_size
      → size ≡ dma_buffer_size page_size
      → length message ≤ size
      → length w.vars.driver.buffer ≡ size
      → Keeps page_size w (transfer k size page_size fd p w)
  unfolding transfer
  transfer-Keeps fd p w h e m l =
      let d : World Vars = record { log = w.log; vars = (stored k size page_size w.vars).driver } in
      let s = answered k (Call.sys_ioctl fd start_transfer) d in
      rw fits (
        ground (
          arith,
          store_message_lem size w l,
          length-write_message size w.vars.driver.buffer l m,
          simple_dma_ioctl_lem page_size start_transfer s,
        ))
    where
      fits : ltb size (length message) ≡ false
      fits = ground arith

  main-Keeps :
      (w : World App)
      → 0 < page_size
      → size ≡ dma_buffer_size page_size
      → length message ≤ size
      → length w.vars.driver.buffer ≡ size
      → Keeps page_size w (main k size page_size w)
  unfolding main
  main-Keeps w h e m l =
      let o = answered k Call.sys_open w in
      let fd = unsigned (k.status w.log Call.sys_open) in
      let p = address k size page_size fd o in
      let mapped = note (Event.gave (Call.sys_mmap size fd) p) (remapped k size page_size fd o) in
      elim (Bool-cases (negative (k.status w.log Call.sys_open))) [
        | inl bad ↦ rw bad (λ rs. refl)
        | inr good ↦ rw good (
            map_buffer-cases k size page_size fd o (Keeps page_size w) (λ rs. refl) (λ rs. refl)
              (λ _. transfer-Keeps fd p mapped h e m l))
      ]

-- The program runs, and the module is removed.
abbrev pub run_and_remove : (k : Kernel) (size page_size : ℕ) → M App ℤ
run_and_remove k size page_size = do
  code ← main k size page_size
  in_driver (simple_dma_exit k page_size)
  pure code

-- What was printed, by the exit code, and what is held.
abbrev pub Finished : World App → Held → ℤ → World App → Type 0
Finished w rs code w' =
    (ledger w'.log ≡ some rs)
    × (if nonzero code
        then (w'.vars.printed ≡ w.vars.printed) ⊎ (w'.vars.printed ≡ text ∷ w.vars.printed)
        else w'.vars.printed ≡ [] ∷ text ∷ w.vars.printed)

exit-Finished :
    (w v : World App) (rs : Held) (code : ℤ) (r : Run Vars (Unit {0}))
    → Prints w (Run.ok code v)
    → Leaves rs r
    → After (Finished w rs) (
        ((λ _. elim r [
          | Run.ok a w' ↦
              Run.ok a (record { log = w'.log; vars = record v.vars { driver = w'.vars } })
          | Run.fault ↦ Run.fault
        ])
            >> pure code)
          v)
exit-Finished w v rs code Run.fault p l = l
exit-Finished w v rs code (Run.ok a w') p l = (l, p)

module _ (k : Kernel) (size page_size : ℕ) where
  main-Finished :
      (w : World App) (rs : Held) (r : Run App ℤ)
      → Prints w r
      → Leaves (bound page_size w.vars.driver rs) r
      → Keeps page_size w r
      → After
          (Finished w rs)
          (((λ _. r) >>= λ code. in_driver (simple_dma_exit k page_size) >> pure code) w)
  main-Finished w rs Run.fault p l s = l
  main-Finished w rs (Run.ok code v) p l s =
      let d : World Vars = record { log = v.log; vars = v.vars.driver } in
      exit-Finished w v rs code (simple_dma_exit k page_size d) p
        (simple_dma_exit-Leaves k page_size d rs (l ∙ ap some (sym (s rs))))

  pub run_and_remove-Finished :
      (errors : ReturnsErrors k) (creates : Creates k) (words : Words k) (unmaps : Unmaps k)
      (begin v : World Vars) (rs : Held) (printed : List (List ℕ))
      → 0 < page_size
      → size ≡ dma_buffer_size page_size
      → length message ≤ size
      → begin.vars.dma_buffer_virt ≡ 0
      → ledger begin.log ≡ some rs
      → simple_dma_init k page_size begin ≡ Run.ok (pos 0) v
      → v.vars.dma_buffer_virt ≢ 0
      → let w : World App = record {
        log = v.log;
        vars = record { driver = v.vars; printed = printed };
      } in
        After (Finished w rs) (run_and_remove k size page_size w)
  run_and_remove-Finished errors creates words unmaps begin v rs printed h e m z held run nz =
      let w : World App = record {
        log = v.log;
        vars = record { driver = v.vars; printed = printed };
      } in
      let (l, s) =
        rw run at (simple_dma_init-Settled k errors creates page_size words begin rs z held) in
      let sized : length v.vars.buffer ≡ size = s (ground arith) ∙ sym e in
      main-Finished w rs (main k size page_size w) (main-Prints k size page_size w h e m sized nz)
        (main-Leaves k size page_size unmaps w (bound page_size v.vars rs) h e m sized l)
        (main-Keeps k size page_size w h e m sized)
