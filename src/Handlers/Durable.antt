-- ===== src/Handlers/Durable.antt =====
-- What the store holds when a Run has ended.
use milky_frog_lite.Prelude.{String, some, ◌≡◌, refl, ap, ◌∙◌}
use milky_frog_lite.Domain.Run.{RunState, RunResult, RunStatus}
use milky_frog_lite.Transcript.Roles.{IsTranscript}
use milky_frog_lite.Snapshot.{Codec}
use milky_frog_lite.Checkpoint.{Row, find_row, load_state, save_state}
use milky_frog_lite.Prelude.{ok}
use milky_frog_lite.Checkpoint.Rows.{load_state-save_state}
use milky_frog_lite.Events.{Event, World, proceed, type_of}
use milky_frog_lite.Events.Hub.{new_hub, broadcast, deliver, sorted, insert, observe}
use milky_frog_lite.Events.Loop.Outcome.{
  Announces, completes, pauses, waits_for_approval, cancels, fails,
}
use milky_frog_lite.Handlers.{Store, register, on_terminal}

module _ {X : Type 0} (codec : Codec) (store : Store codec X) where
  saved_back :
      (t : RunState) (status : RunStatus) (m : String) (x : X) (r : Row codec)
      → find_row codec (store.rows_of x) t.run_id ≡ some r
      → t.workspace ≡ r.stored.workspace
      → IsTranscript t.messages
      → load_state codec
          (store.rows_of (
            store.put
              (save_state codec (store.rows_of x) (store.now x) t.run_id t (some status) (some m))
              x))
          t.run_id
        ≡ ok t
  saved_back t status m x r found e h =
      ap (λ rows. load_state codec rows t.run_id) (store.rows_of-put _ x)
      ∙ load_state-save_state codec (store.rows_of x) (store.now x) t.run_id t (some status)
          (some m) r found refl e h

  -- Once the terminal signal of a Run is broadcast to the Handler that writes checkpoints, the state
  -- that is loaded for the Run is the one the signal carries, if the Run has a row with its
  -- Workspace and its transcript is well formed.
  pub terminal-IsDurable :
      {t : RunState} {result : RunResult} {event : Event} (w : World X) (r : Row codec)
      → Announces t result event
      → find_row codec (store.rows_of w.outside) t.run_id ≡ some r
      → t.workspace ≡ r.stored.workspace
      → IsTranscript t.messages
      → load_state codec
          (store.rows_of (broadcast (register codec store new_hub) event w).1.outside)
          t.run_id
        ≡ ok t
  unfolding broadcast deliver sorted insert register new_hub observe proceed on_terminal type_of
  terminal-IsDurable {t} w r (completes m) found e h = saved_back t _ m w.outside r found e h
  terminal-IsDurable {t} w r (pauses m) found e h = saved_back t _ m w.outside r found e h
  terminal-IsDurable {t} w r (waits_for_approval m) found e h =
      saved_back t _ m w.outside r found e h
  terminal-IsDurable {t} w r (cancels m) found e h = saved_back t _ m w.outside r found e h
  terminal-IsDurable {t} w r (fails m) found e h = saved_back t _ m w.outside r found e h
