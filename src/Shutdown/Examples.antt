-- ===== src/Shutdown/Examples.antt =====
-- A test and an instance: a shutdown is requested before the session is wired, and again.
use milky_frog_lite.Prelude.{[], ◌∷◌, ◌≤◌, ◌≡◌, refl, some, true, List}
use milky_frog_lite.Shutdown.{
  Op, requests, wires, attaches, cleans, act_all, act, wire, attach_worker, request_shutdown,
  shutdown_run, shut, shutdown_if, attach, cleanup, clean, releases, reversed, new_manager,
  shuts_run, exits_model, closes_factory, cancels_worker, exits_handler,
}
use milky_frog_lite.Shutdown.Once.{shutdowns, closings, act_all_once}

abbrev overlapping : List Op
overlapping =
    requests
    ∷ wires ("checkpoint" ∷ "langfuse" ∷ []) true
    ∷ attaches (some 1)
    ∷ requests
    ∷ cleans
    ∷ cleans
    ∷ []

late_wiring :
    (act_all overlapping new_manager).1
    ≡ shuts_run
      ∷ cancels_worker 1
      ∷ exits_handler "langfuse"
      ∷ exits_handler "checkpoint"
      ∷ exits_model
      ∷ closes_factory
      ∷ []
unfolding act_all act wire attach_worker request_shutdown shutdown_run shut shutdown_if attach
    cleanup clean releases reversed
late_wiring = refl

act_all_once_example :
    (shutdowns (act_all overlapping new_manager).1 ≤ 1)
    × (closings (act_all overlapping new_manager).1 ≤ 1)
act_all_once_example = act_all_once overlapping
