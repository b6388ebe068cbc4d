-- ===== src/Enviroment/Clock.antt =====
-- The clock that the servers share: `CalcFdcsTimeDiffer` and `FdcsTime`.
use fast_dcs.Common.{◌≡◌}
use fast_dcs.Common.Int.{ℤ, ◌+ℤ◌, int_laws}
use fast_dcs.Enviroment.{Enviroment, fdcs_time, calc_fdcs_time_differ, init_fdcs_time_differ}

-- After a synchronisation with the time that the primary master sent, the server's FastDCS time is
-- that time, and goes on as the local clock does: `passed` seconds later it shows as many more.
pub fdcs_time-calc_fdcs_time_differ :
    (env : Enviroment) (time now passed : ℤ)
    → fdcs_time (calc_fdcs_time_differ env time now) (now +ℤ passed) ≡ time +ℤ passed
unfolding fdcs_time calc_fdcs_time_differ
fdcs_time-calc_fdcs_time_differ env time now passed = omega int_laws

-- Two servers that were synchronised with one master agree at any later moment, whatever their own
-- clocks show: `now` and `now'` are the clocks' readings at the two synchronisations, which came
-- `delay` seconds apart.
pub fdcs_time_agree :
    (env env' : Enviroment) (time now now' delay passed : ℤ)
    → fdcs_time (calc_fdcs_time_differ env time now) (now +ℤ (delay +ℤ passed))
      ≡ fdcs_time (calc_fdcs_time_differ env' (time +ℤ delay) now') (now' +ℤ passed)
unfolding fdcs_time calc_fdcs_time_differ
fdcs_time_agree env env' time now now' delay passed = omega int_laws

-- A master that becomes the primary goes by its own clock.
pub fdcs_time-init : (env : Enviroment) (now : ℤ) → fdcs_time (init_fdcs_time_differ env) now ≡ now
unfolding fdcs_time init_fdcs_time_differ
fdcs_time-init env now = omega int_laws
