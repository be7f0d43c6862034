-- ===== src/Domain/Run.antt =====
-- domain/run.py, domain/status.py and domain/model.py: the state of a Run, what it returns, and
-- what it exchanges with the model.
use milky_frog_lite.Prelude.{ℕ, String, List, [], Option, none}
use milky_frog_lite.Domain.Json.{JsonObject}
use milky_frog_lite.Domain.Message.{Message, ToolCall}
use milky_frog_lite.Domain.Usage.{TokenUsage, RunUsage, no_run_usage}

pub data RunStatus : Type 0 where
  running waiting_for_input waiting_for_approval paused_limit completed failed cancelled : RunStatus

pub data RunKind : Type 0 where
  foreground subagent : RunKind

abbrev pub default_max_model_calls : ℕ
default_max_model_calls = 30

-- Paths of the host are texts.
abbrev pub FilePath : Type 0
FilePath = String

pub record CompactionState : Type 0 where
  pub summary : String
  pub through_index : ℕ

-- The proposal of a Handler; `HandlerResult` has no other variant.
pub record Compacted : Type 0 where
  pub compaction : CompactionState
  pub messages_folded : ℕ
  pub usage : TokenUsage

pub record RunState : Type 0 where
  pub run_id : String
  pub workspace : FilePath
  pub messages : List Message
  pub completed_model_calls : ℕ
  pub usage : RunUsage
  pub compaction : Option CompactionState
  pub run_extra : List String
  pub selected_skills : List String
  pub run_kind : RunKind
  pub parent_run_id : Option String

-- `RunState(run_id=run_id, workspace=workspace)`
abbrev pub new_state : String → FilePath → RunState
new_state run_id workspace = record {
  run_id = run_id;
  workspace = workspace;
  messages = [];
  completed_model_calls = 0;
  usage = no_run_usage;
  compaction = none;
  run_extra = [];
  selected_skills = [];
  run_kind = foreground;
  parent_run_id = none;
}

-- A cancellation is an object of the world, not a part of the value.
pub record RunRequest : Type 0 where
  pub prompt : String
  pub workspace : FilePath
  pub max_model_calls : ℕ
  pub skill_content : Option String
  pub selected_skills : List String
  pub run_kind : RunKind
  pub parent_run_id : Option String

pub record RunResult : Type 0 where
  pub run_id : String
  pub status : RunStatus
  pub final_message : String
  pub model_calls : ℕ
  pub usage : RunUsage

pub record ModelRequest : Type 0 where
  pub messages : List Message
  pub tools : List JsonObject
  pub run_id : String

pub record ModelResponse : Type 0 where
  pub content : String
  pub tool_calls : List ToolCall
  pub usage : TokenUsage
  pub model : String
  pub reasoning : String
