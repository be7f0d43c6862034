-- ===== src/Transcript.antt =====
-- harness/state.py: the pure operations that grow and repair the transcript of a Run.
pub mod Matching
pub mod Seal
pub mod Roles
mod Examples
use milky_frog_lite.Prelude.{
  ℕ, ◌+◌, Bool, true, false, not, String, List, [], ◌∷◌, ◌++◌, Option, none, some, filter, contains,
  if◌then◌else◌,
}
use milky_frog_lite.Domain.Message.{
  Message, MessageRole, system, user, assistant, tool, ToolCall, ToolResult, plain_message,
  error_result,
}
use milky_frog_lite.Domain.Usage.{record_call}
use milky_frog_lite.Domain.Run.{RunState, ModelResponse}

abbrev pub interrupted_tool_result : String
interrupted_tool_result =
    "Tool execution was interrupted before it completed; its effect is unknown."

unfoldable pub start_run : RunState → String → RunState
start_run state prompt = record state { messages = plain_message user prompt ∷ [] }

unfoldable pub append_user_message : RunState → String → RunState
append_user_message state content = record state {
  messages = state.messages ++ plain_message user content ∷ [];
}

unfoldable pub with_run_skills : RunState → List String → List String → RunState
with_run_skills state run_extra selected_skills = record state {
  run_extra = run_extra;
  selected_skills = selected_skills;
}

-- Reasoning stays only beside Tool calls.
abbrev pub kept_reasoning : List ToolCall → String → String
kept_reasoning [] reasoning = ""
kept_reasoning (_ ∷ _) reasoning = reasoning

abbrev pub response_message : ModelResponse → Message
response_message response = record {
  role = assistant;
  content = response.content;
  tool_calls = response.tool_calls;
  tool_call_id = none;
  reasoning = kept_reasoning response.tool_calls response.reasoning;
}

unfoldable pub append_model_response : RunState → ModelResponse → RunState
append_model_response state response = record state {
  messages = state.messages ++ response_message response ∷ [];
  completed_model_calls = state.completed_model_calls + 1;
  usage = record_call state.usage response.usage;
}

abbrev pub synthetic_message : ToolCall → Message
synthetic_message call = record {
  role = assistant;
  content = "";
  tool_calls = call ∷ [];
  tool_call_id = none;
  reasoning = "";
}

unfoldable pub append_synthetic_tool_call : RunState → ToolCall → RunState
append_synthetic_tool_call state call = record state {
  messages = state.messages ++ synthetic_message call ∷ [];
}

abbrev pub result_message : ToolCall → ToolResult → Message
result_message call result = record {
  role = tool;
  content = result.content;
  tool_calls = [];
  tool_call_id = some call.id;
  reasoning = "";
}

unfoldable pub append_tool_result : RunState → ToolCall → ToolResult → RunState
append_tool_result state call result = record state {
  messages = state.messages ++ result_message call result ∷ [];
}

-- The id that a message answers, if it is a Tool result with one.
abbrev pub answered_by : MessageRole → Option String → List String
answered_by tool (some id) = id ∷ []
answered_by tool none = []
answered_by _ _ = []

-- The set `satisfied`.
unfoldable pub satisfied : List Message → List String
satisfied [] = []
satisfied (m ∷ ms) = answered_by m.role m.tool_call_id ++ satisfied ms

abbrev pub calls_by : MessageRole → List ToolCall → List ToolCall
calls_by assistant calls = calls
calls_by _ calls = []

-- The Tool calls of the assistant messages, in transcript order.
unfoldable pub requested : List Message → List ToolCall
requested [] = []
requested (m ∷ ms) = calls_by m.role m.tool_calls ++ requested ms

unfoldable pub unmatched_tool_calls : List Message → List ToolCall
unfolding satisfied requested
unmatched_tool_calls messages =
    filter (λ call. not (contains (satisfied messages) call.id)) (requested messages)

-- The loop of `seal`, over the calls that were unmatched when it began.
unfoldable pub seal_calls : List ToolCall → RunState → Bool → RunState × Bool
seal_calls [] state repaired = (state, repaired)
seal_calls (call ∷ calls) state repaired =
    seal_calls calls (append_tool_result state call (error_result interrupted_tool_result)) true

unfoldable pub seal : RunState → RunState × Bool
unfolding seal_calls
seal state = seal_calls (unmatched_tool_calls state.messages) state false
