-- ===== src/Events.antt =====
-- events/events.py, and what a coroutine of the event package does: the lifecycle signals, the
-- exceptions, and effects that change the outside world and record what is broadcast. The constant
-- `HandlerDeps` and the deep copies that guard against mutation are left out: values here never
-- change.
pub mod Hub
pub mod Emitter
pub mod ToolStep
pub mod Loop
mod Examples
use milky_frog_lite.Prelude.{ℕ, String, List, [], ◌∷◌, ◌++◌, Option}
use milky_frog_lite.Domain.Message.{ToolCall, ToolResult}
use milky_frog_lite.Domain.Usage.{TokenUsage}
use milky_frog_lite.Domain.Run.{
  RunState, RunResult, RunStatus, RunKind, ModelRequest, ModelResponse, FilePath,
}

-- What `except` tells apart: the cooperative cancel of a Tool, the cancellation of the task, and
-- the subclasses of Exception, by name, text, and the request that an HTTP error carries.
pub data Raised : Type 0 where
  tool_run_cancelled : Raised
  task_cancelled : Raised
  error : String → String → Option String → Raised

pub data Attempt (A : Type 0) : Type 0 where
  returned : A → Attempt A
  raised : Raised → Attempt A

-- The request of `RunStarted` and `RunBeforeStart` is its prompt.
pub data Event : Type 0 where
  run_before_start : String → String → FilePath → Event
  run_before_resume :
      String → Option String → RunStatus → FilePath → List String → RunKind → Option String → Event
  run_started : String → String → RunState → Event
  run_before_model : String → ModelRequest → RunState → Event
  run_model_reasoning run_model_chunk : String → ModelRequest → String → Event
  run_after_model : String → ModelRequest → ModelResponse → RunState → Event
  run_before_tool : String → ToolCall → Event
  run_after_tool : String → ToolCall → ToolResult → RunState → Event
  run_turn_start run_turn_end : String → ℕ → Event
  run_completed run_paused run_cancelled run_failed : String → RunResult → RunState → Event
  run_notice : String → String → String → Event
  run_compaction : String → ℕ → TokenUsage → Event

-- The classes of the events, by which Handlers register.
pub data EventType : Type 0 where
  before_start before_resume started before_model model_reasoning model_chunk : EventType
  after_model before_tool after_tool turn_start turn_end : EventType
  completed_event paused_event cancelled_event failed_event notice compaction_event : EventType

unfoldable pub type_of : Event → EventType
type_of (run_before_start _ _ _) = before_start
type_of (run_before_resume _ _ _ _ _ _ _) = before_resume
type_of (run_started _ _ _) = started
type_of (run_before_model _ _ _) = before_model
type_of (run_model_reasoning _ _ _) = model_reasoning
type_of (run_model_chunk _ _ _) = model_chunk
type_of (run_after_model _ _ _ _) = after_model
type_of (run_before_tool _ _) = before_tool
type_of (run_after_tool _ _ _ _) = after_tool
type_of (run_turn_start _ _) = turn_start
type_of (run_turn_end _ _) = turn_end
type_of (run_completed _ _ _) = completed_event
type_of (run_paused _ _ _) = paused_event
type_of (run_cancelled _ _ _) = cancelled_event
type_of (run_failed _ _ _) = failed_event
type_of (run_notice _ _ _) = notice
type_of (run_compaction _ _ _) = compaction_event

-- The world outside the event package, and the signals broadcast so far, the newest last.
pub record World (X : Type 0) : Type 0 where
  pub events : List Event
  pub outside : X

-- A coroutine that gives an A, or raises, and leaves another world.
abbrev pub Effect : Type 0 → Type 0 → Type 0
Effect X A = World X → Attempt A × World X

unfoldable pub proceed :
    {X A B : Type 0} → Attempt A → World X → (A → Effect X B) → Attempt B × World X
proceed (returned a) w f = f a w
proceed (raised e) w f = (raised e, w)

-- `await`
infixl 5 ◌>>=◌
abbrev pub ◌>>=◌ : {X A B : Type 0} → Effect X A → (A → Effect X B) → Effect X B
(m >>= f) w = proceed (m w).0 (m w).1 f

abbrev pub give : {X A : Type 0} → A → Effect X A
give a w = (returned a, w)
