-- ===== src/Handlers.antt =====
-- handlers/checkpoint.py: the Handler that writes the state of a Run at each durable signal.
pub mod Durable
pub mod Company
pub mod Broadcasts
mod Examples
use milky_frog_lite.Prelude.{ℕ, Bool, true, false, String, List, Option, none, some, ◌≡◌}
use milky_frog_lite.Domain.Run.{RunState, RunResult, RunStatus, running, Compacted}
use milky_frog_lite.Snapshot.{Codec}
use milky_frog_lite.Checkpoint.{Row, save_state}
use milky_frog_lite.Events.{
  Event, EventType, Attempt, returned, started, after_model, after_tool, completed_event,
  paused_event, cancelled_event, failed_event, run_started, run_after_model, run_after_tool,
  run_completed, run_paused, run_cancelled, run_failed,
}
use milky_frog_lite.Events.Hub.{EventHub, HandlerCallback, new_hub, observe}

-- The store of the Handler, as a part of the outside world, and the clock it reads.
pub record Store (codec : Codec) (X : Type 0) : Type 0 where
  pub rows_of : X → List (Row codec)
  pub put : List (Row codec) → X → X
  pub now : X → ℕ
  pub rows_of-put : (rows : List (Row codec)) (x : X) → rows_of (put rows x) ≡ rows

-- `_PRIORITY`
abbrev pub checkpoint_priority : ℕ
checkpoint_priority = 100

abbrev pub is_started : EventType → Bool
is_started started = true
is_started _ = false

abbrev pub is_after_model : EventType → Bool
is_after_model after_model = true
is_after_model _ = false

abbrev pub is_after_tool : EventType → Bool
is_after_tool after_tool = true
is_after_tool _ = false

abbrev pub is_completed : EventType → Bool
is_completed completed_event = true
is_completed _ = false

abbrev pub is_paused : EventType → Bool
is_paused paused_event = true
is_paused _ = false

abbrev pub is_cancelled : EventType → Bool
is_cancelled cancelled_event = true
is_cancelled _ = false

abbrev pub is_failed : EventType → Bool
is_failed failed_event = true
is_failed _ = false

module _ {X : Type 0} (codec : Codec) (store : Store codec X) where
  abbrev pub save :
      String → RunState → Option RunStatus → Option String → X → Attempt (Option Compacted) × X
  save run_id state status message x = (
    returned none,
    store.put (save_state codec (store.rows_of x) (store.now x) run_id state status message) x,
  )

  unfoldable pub on_run_started : HandlerCallback X
  on_run_started (run_started run_id _ state) x = save run_id state (some running) none x
  on_run_started _ x = (returned none, x)

  unfoldable pub on_after_model : HandlerCallback X
  on_after_model (run_after_model run_id _ _ state) x = save run_id state none none x
  on_after_model _ x = (returned none, x)

  unfoldable pub on_after_tool : HandlerCallback X
  on_after_tool (run_after_tool run_id _ _ state) x = save run_id state none none x
  on_after_tool _ x = (returned none, x)

  abbrev pub save_result : String → RunResult → RunState → X → Attempt (Option Compacted) × X
  save_result run_id result state x =
      save run_id state (some result.status) (some result.final_message) x

  unfoldable pub on_terminal : HandlerCallback X
  on_terminal (run_completed run_id result state) x = save_result run_id result state x
  on_terminal (run_paused run_id result state) x = save_result run_id result state x
  on_terminal (run_cancelled run_id result state) x = save_result run_id result state x
  on_terminal (run_failed run_id result state) x = save_result run_id result state x
  on_terminal _ x = (returned none, x)

  unfoldable pub register : EventHub X → EventHub X
  unfolding observe on_run_started on_after_model on_after_tool on_terminal
  register hub =
      let a = observe hub is_started checkpoint_priority on_run_started in
      let b = observe a is_after_model checkpoint_priority on_after_model in
      let c = observe b is_after_tool checkpoint_priority on_after_tool in
      let d = observe c is_completed checkpoint_priority on_terminal in
      let e = observe d is_paused checkpoint_priority on_terminal in
      let f = observe e is_cancelled checkpoint_priority on_terminal in
      observe f is_failed checkpoint_priority on_terminal
