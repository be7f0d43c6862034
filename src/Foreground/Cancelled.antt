-- ===== src/Foreground/Cancelled.antt =====
-- What becomes of a foreground Run whose task is cancelled: `shutdown`, under `except
-- asyncio.CancelledError` of core/runtime/foreground.py.
use milky_frog_lite.Transcript.Roles.{IsTranscript}
use milky_frog_lite.Transcript.{seal, unmatched_tool_calls}
use milky_frog_lite.Checkpoint.{Row, StoredRun, find_row, get_run, load_state}
use milky_frog_lite.Checkpoint.Rows.{run_id-find_row}
use milky_frog_lite.Checkpoint.Facade.{seal_interrupt, seal_interrupt_running}
use milky_frog_lite.Domain.Run.{RunState, RunResult, running, cancelled}
use milky_frog_lite.Prelude.{
  ℕ, ◌≡◌, String, false, Option, List, [], some, ok, ap, ◌∙◌, refl, sym, eq_iff,
}
use milky_frog_lite.Events.{Attempt, World, raised, task_cancelled, returned}
use milky_frog_lite.Snapshot.{Codec}
use milky_frog_lite.Foreground.{
  Session, ForegroundHost, ForegroundRun, cancel, sealed, seal_run, shutdown, after_cancel,
  conclude_run, concluded, foreground, go_on_with, cancellable, limit_of, busied,
}

module _ {X : Type 0} {codec : Codec} (host : ForegroundHost codec X) where
  abbrev rows_in : World X → List (Row codec)
  rows_in w = host.harness.store.rows_of w.outside

  -- The session once the Run is sealed.
  abbrev sealed_with : ForegroundRun → String → World X → List (Row codec) → Session X
  sealed_with f id w rows = record {
    foreground = record f { run_id = some id; busy = false; has_cancellation = false };
    world = record w { outside = host.harness.store.put rows (host.request_cancel w.outside) };
  }

  conclude_sealed :
      (f : ForegroundRun) (id : String) (w : World X) (rows : List (Row codec))
      → seal_interrupt codec
          (host.harness.store.rows_of (host.request_cancel w.outside))
          (host.harness.store.now (host.request_cancel w.outside))
          id
          "interrupted"
        ≡ ok rows
      → conclude_run host (busied host (some id) f) (raised task_cancelled, w)
        ≡ (raised task_cancelled, sealed_with f id w rows)
  unfolding conclude_run shutdown cancel seal_run sealed after_cancel
  conclude_sealed f id w rows e = rw (e, sealed, after_cancel) refl

  -- Idle, with the Run stored CANCELLED and its sealed transcript loaded back, in which no call waits.
  pub record IsInterrupted (run : StoredRun) (state : RunState) (t : Session X) : Type 0 where
    pub idle : t.foreground.busy ≡ false
    pub released : t.foreground.has_cancellation ≡ false
    pub kept_id : t.foreground.run_id ≡ some run.run_id
    pub at : ℕ
    pub stored :
        get_run codec (rows_in t.world) run.run_id
        ≡ some
            (record run { status = cancelled; updated_at = at; final_message = some "interrupted" })
    pub loaded : load_state codec (rows_in t.world) run.run_id ≡ ok (seal state).0
    pub answered : unmatched_tool_calls (seal state).0.messages ≡ []

  -- If the task is cancelled while the session goes on with a stored Run, in whatever way, and the
  -- Run is RUNNING by then, the cancellation is raised, the session is idle, and the Run is stored
  -- CANCELLED with its sealed transcript, in which no Tool call waits for a result. The state that
  -- is stored by then is loaded, bears the id and the Workspace of its row and has a well-formed
  -- transcript, and requesting a cancellation leaves the store alone.
  pub go_on_with-IsInterrupted :
      (keeps : (x : X)
        → host.harness.store.rows_of (host.request_cancel x) ≡ host.harness.store.rows_of x)
      (stored : StoredRun) (part : StoredRun → ℕ → World X → Option (Attempt RunResult × World X))
      (s : Session X) (calls : ℕ) (w : World X) (r : Row codec) (state : RunState)
      → host.max_model_calls stored.workspace s.world.outside ≡ returned calls
      → part stored (limit_of host s.foreground calls) (cancellable host s.world)
        ≡ some (raised task_cancelled, w)
      → find_row codec (rows_in w) stored.run_id ≡ some r
      → r.stored.status ≡ running
      → load_state codec (rows_in w) stored.run_id ≡ ok state
      → state.run_id ≡ stored.run_id
      → state.workspace ≡ r.stored.workspace
      → IsTranscript state.messages
      → (t : Session X) × (go_on_with host (returned stored) part s
          ≡ some (raised task_cancelled, t))
        × IsInterrupted r.stored state t
  unfolding go_on_with foreground concluded
  go_on_with-IsInterrupted keeps stored part s calls w r state c h found run load id ws well =
      let x = host.request_cancel w.outside in
      let same : r.stored.run_id ≡ stored.run_id =
        (eq_iff _ _).0 (run_id-find_row codec (rows_in w) stored.run_id r found) in
      let now = host.harness.store.now x in
      let (rows, e, row, back, none_waits) =
        seal_interrupt_running codec (host.harness.store.rows_of x) now stored.run_id "interrupted"
          r state (ap (λ l. find_row codec l stored.run_id) (keeps w.outside) ∙ found) run
          (ap (λ l. load_state codec l stored.run_id) (keeps w.outside) ∙ load) id ws well in
      let t = sealed_with s.foreground stored.run_id w rows in
      let put : rows_in t.world ≡ rows = host.harness.store.rows_of-put rows x in
      (
        t,
        ap (λ o. foreground host (some stored.run_id) o (part stored) s) c
            ∙ ap (concluded host (busied host (some stored.run_id) s.foreground)) h
            ∙ ap (λ o. some o) (conclude_sealed s.foreground stored.run_id w rows e),
        record {
          idle = refl;
          released = refl;
          kept_id = ap (λ i. some i) (sym same);
          at = now;
          stored =
              ap (get_run codec (rows_in t.world)) same
              ∙ ap (λ l. get_run codec l stored.run_id) put
              ∙ row;
          loaded =
              ap (load_state codec (rows_in t.world)) same
              ∙ ap (λ l. load_state codec l stored.run_id) put
              ∙ back;
          answered = none_waits;
        },
      )
