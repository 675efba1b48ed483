-- ===== src/Uio/Tests.antt =====
-- A device under uio/simple_uio_driver.c, whose first probe fails.
use char_driver_scull.Base.{ℤ, length, if◌then◌else◌, ◌==◌, pos, true, false, refl, []}
use char_driver_scull.Kernel.{Kernel, Run, World}
use char_driver_scull.Kernel.Driver.{Life, CanGoOn, failures}
use char_driver_scull.Kernel.Ledger.{ledger}
use char_driver_scull.Uio.{Vars, map_bar, choose_irq, request_line, dummy_probe, dummy_uio_driver}
use char_driver_scull.Uio.Resources.{Outcome, dummy_probe-Outcome}
use char_driver_scull.Uio.Life.{Leaked, operate, dummy_uio_driver-Leaked}
use char_driver_scull.Tests.{kernel, pdev, start}

abbrev uio_vars : Vars
uio_vars = record {
  dummy_uio_info = record {
    mem_addr = 0;
    mem_size = 0;
    irq = 0;
    irq_flags = 0;
    has_irqcontrol = false;
  };
  mmio_base = 5;
  dummy_irq = 11;
  drvdata = 3;
}

dummy_probe-Outcome_example : Outcome 3 [] (dummy_probe kernel 3 pdev (start uio_vars))
unfolding ledger
dummy_probe-Outcome_example = dummy_probe-Outcome kernel 3 pdev (start uio_vars) [] refl refl

-- A kernel that refuses the interrupt line to the first probe, after MSI-X has been enabled.
abbrev refusing : Kernel
refusing = record kernel { status = λ log c. if length log == 6 then pos 1 else pos 0 }

abbrev reached : Run Vars ℤ → World Vars → World Vars
reached Run.fault w = w
reached (Run.ok ret v) w = v

abbrev uio_failed : World Vars
uio_failed = reached (dummy_probe refusing 3 pdev (start uio_vars)) (start uio_vars)

abbrev uio_bound : World Vars
uio_bound = reached (dummy_probe refusing 3 pdev uio_failed) uio_failed

uio_history :
    Life
      (dummy_uio_driver refusing 3 pdev)
      (operate refusing 3 pdev)
      (start uio_vars)
      true
      uio_bound
unfolding dummy_probe map_bar choose_irq request_line
uio_history = Life.probed (pos 0) (Life.probed (pos 1) Life.start refl refl) refl refl

dummy_uio_driver-Leaked_example :
    Leaked 3 []
      (failures (dummy_uio_driver refusing 3 pdev) (operate refusing 3 pdev) uio_history)
      true
      uio_bound
    × CanGoOn (dummy_uio_driver refusing 3 pdev) (operate refusing 3 pdev) true uio_bound
unfolding ledger
dummy_uio_driver-Leaked_example =
    dummy_uio_driver-Leaked refusing 3 pdev (start uio_vars) uio_bound true [] refl refl uio_history
