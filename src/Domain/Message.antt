-- ===== src/Domain/Message.antt =====
-- domain/messages.py and domain/tools.py: the conversation and the Tool calls in it.
use milky_frog_lite.Prelude.{Bool, true, false, String, List, [], Option, none}
use milky_frog_lite.Domain.Json.{JsonObject}

-- class ToolDecision
pub data ToolDecision : Type 0 where
  allow deny needs_approval : ToolDecision

pub record ToolCall : Type 0 where
  pub id : String
  pub name : String
  pub arguments : JsonObject

pub record FollowUpCall : Type 0 where
  pub tool_name : String
  pub arguments : JsonObject

pub record ToolResult : Type 0 where
  pub content : String
  pub is_error : Bool
  pub display_content : Option String
  pub follow_up : Option FollowUpCall

-- `ToolResult(content, is_error=True)`
abbrev pub error_result : String → ToolResult
error_result content = record {
  content = content;
  is_error = true;
  display_content = none;
  follow_up = none;
}

pub data MessageRole : Type 0 where
  system user assistant tool : MessageRole

abbrev pub is_tool : MessageRole → Bool
is_tool tool = true
is_tool _ = false

abbrev pub is_system : MessageRole → Bool
is_system system = true
is_system _ = false

pub record Message : Type 0 where
  pub role : MessageRole
  pub content : String
  pub tool_calls : List ToolCall
  pub tool_call_id : Option String
  pub reasoning : String

-- `Message(role, content)`
abbrev pub plain_message : MessageRole → String → Message
plain_message role content = record {
  role = role;
  content = content;
  tool_calls = [];
  tool_call_id = none;
  reasoning = "";
}
