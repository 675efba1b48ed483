-- ===== src/Pmd/Link.antt =====
-- The link of network/dpdk/pmd.c: up and down by `my_pmd_start` and `my_pmd_stop`.
use char_driver_scull.Base.{arith, Bool, true, false, refl, ◌≡◌, List, [], ◌∷◌, pos, if◌then◌else◌}
use char_driver_scull.Kernel.{Event, World, Run, M, pure, ◌>>=◌, ◌>>◌}
use char_driver_scull.Kernel.Interface.{Call}
use char_driver_scull.Pmd.{
  Vars, set_link, my_pmd_dev_configure, my_pmd_start, my_pmd_stop, my_pmd_close, my_pmd_link_update,
}

-- The device operations that an application calls in any order.
pub data Command : Type 0 where
  configure start stop close : Command

abbrev pub run : Command → M Vars (Unit {0})
run Command.configure = do _ ← my_pmd_dev_configure; pure tt
run Command.start = do _ ← my_pmd_start; pure tt
run Command.stop = my_pmd_stop
run Command.close = my_pmd_close

abbrev pub run_all : List Command → M Vars (Unit {0})
run_all [] = pure tt
run_all (c ∷ cs) = do run c; run_all cs

-- The link after the commands: that of the last start or stop, and `b` if there is none.
abbrev pub is_up : Bool → List Command → Bool
is_up b [] = b
is_up b (Command.start ∷ cs) = is_up true cs
is_up b (Command.stop ∷ cs) = is_up false cs
is_up b (Command.configure ∷ cs) = is_up b cs
is_up b (Command.close ∷ cs) = is_up b cs

run_all_lem :
    (cs : List Command) (w : World Vars)
    → run_all cs w ≡ Run.ok tt (record w { vars = set_link (is_up w.vars.priv.link_up cs) w.vars })
unfolding my_pmd_dev_configure my_pmd_start my_pmd_stop my_pmd_close set_link
run_all_lem [] w = refl
run_all_lem (Command.configure ∷ cs) w = run_all_lem cs w
run_all_lem (Command.start ∷ cs) w = run_all_lem cs (record w { vars = set_link true w.vars })
run_all_lem (Command.stop ∷ cs) w = run_all_lem cs (record w { vars = set_link false w.vars })
run_all_lem (Command.close ∷ cs) w = run_all_lem cs w

-- After any sequence of device operations, `my_pmd_link_update` returns 0 and reports, at 10000,
-- an up link if the last start or stop was a start, or if there was neither and the link was up
-- before, and a down link otherwise. No operation makes another call.
pub my_pmd_link_update_lem :
    (cs : List Command) (w : World Vars)
    → (run_all cs >> my_pmd_link_update) w ≡ (
        let up = is_up w.vars.priv.link_up cs in
        Run.ok (pos 0) (record {
          log = Event.ran (Call.rte_eth_linkstatus_set (if up then 1 else 0) 10000) ∷ w.log;
          vars = set_link up w.vars;
        }))
unfolding my_pmd_link_update set_link
my_pmd_link_update_lem cs w = ground (arith, run_all_lem cs w)
