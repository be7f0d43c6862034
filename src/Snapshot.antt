-- ===== src/Snapshot.antt =====
-- checkpoint/snapshot.py: the durable form of a RunState. pydantic's `model_dump_json` and
-- `model_validate_json` are the parameter `Codec`.
pub mod Nested
pub mod Roundtrip
mod Examples
use milky_frog_lite.Prelude.{
  ℕ, zero, suc, ◌+◌, String, List, [], ◌∷◌, Option, none, some, get_elem?, str_eq, map, ◌≡◌,
  if◌then◌else◌,
}
use milky_frog_lite.Domain.Json.{JsonObject}
use milky_frog_lite.Domain.Message.{Message, MessageRole, system, user, assistant, tool, ToolCall}
use milky_frog_lite.Domain.Usage.{TokenUsage, RunUsage}
use milky_frog_lite.Domain.Run.{RunState, CompactionState, RunKind, FilePath}
use milky_frog_lite.Snapshot.Nested.{
  ToolCallSnapshot, RunUsageSnapshot, CompactionSnapshot, call_to_snapshot, call_from_snapshot,
  usage_to_snapshot, usage_from_snapshot, compaction_to_snapshot, compaction_from_snapshot,
}
use milky_frog_lite.Tokens.{role_value}

abbrev pub snapshot_version : ℕ
snapshot_version = 1

pub record MessageSnapshot : Type 0 where
  pub role : String
  pub content : String
  pub tool_calls : List ToolCallSnapshot
  pub tool_call_id : Option String
  pub reasoning : Option String

pub record RunSnapshot : Type 0 where
  pub version : ℕ
  pub messages : List MessageSnapshot
  pub completed_model_calls : ℕ
  pub legacy_reasoning_log : List String
  pub usage : RunUsageSnapshot
  pub compaction : Option CompactionSnapshot
  pub run_extra : List String
  pub selected_skills : List String
  pub run_kind : RunKind
  pub parent_run_id : Option String

-- Encoding a snapshot that has no legacy log, which is excluded, and decoding it gives it back.
pub record Codec : Type 1 where
  pub Encoded : Type 0
  pub encode : RunSnapshot → Encoded
  pub decode : Encoded → Option RunSnapshot
  pub decode-encode : (s : RunSnapshot) → s.legacy_reasoning_log ≡ [] → decode (encode s) ≡ some s

-- `message.reasoning or None`
abbrev pub nonempty : String → Option String
nonempty s = if str_eq s "" then none else some s

unfoldable pub message_to_snapshot : Message → MessageSnapshot
message_to_snapshot m = record {
  role = role_value m.role;
  content = m.content;
  tool_calls = map call_to_snapshot m.tool_calls;
  tool_call_id = m.tool_call_id;
  reasoning = nonempty m.reasoning;
}

unfoldable pub to_snapshot : RunState → RunSnapshot
unfolding message_to_snapshot
to_snapshot state = record {
  version = snapshot_version;
  messages = map message_to_snapshot state.messages;
  completed_model_calls = state.completed_model_calls;
  legacy_reasoning_log = [];
  usage = usage_to_snapshot state.usage;
  compaction = compaction_to_snapshot state.compaction;
  run_extra = state.run_extra;
  selected_skills = state.selected_skills;
  run_kind = state.run_kind;
  parent_run_id = state.parent_run_id;
}

-- `MessageRole(value)`; `none` is its `ValueError`.
unfoldable pub role_of : String → Option MessageRole
role_of value =
    if str_eq value "system"
    then some system
    else if str_eq value "user"
    then some user
    else if str_eq value "assistant"
    then some assistant
    else if str_eq value "tool"
    then some tool
    else none

-- `message.reasoning or (legacy_reasoning if message.tool_calls else "")`
legacy_for : List ToolCallSnapshot → String → String
legacy_for [] legacy = ""
legacy_for (_ ∷ _) legacy = legacy

reasoning_or : Option String → String → String
reasoning_or none legacy = legacy
reasoning_or (some r) legacy = if str_eq r "" then legacy else r

unfoldable pub message_from_snapshot : MessageSnapshot → String → Option Message
unfolding legacy_for reasoning_or role_of
message_from_snapshot m legacy = elim (role_of m.role) [
  | none ↦ none
  | some role ↦ some (record {
    role = role;
    content = m.content;
    tool_calls = map call_from_snapshot m.tool_calls;
    tool_call_id = m.tool_call_id;
    reasoning = reasoning_or m.reasoning (legacy_for m.tool_calls legacy);
  })
]

entry_or_empty : Option String → String
entry_or_empty none = ""
entry_or_empty (some r) = r

-- The entry of the legacy log for an assistant message.
legacy_entry : MessageSnapshot → List String → ℕ → String
unfolding entry_or_empty
legacy_entry m log assistant_count =
    if str_eq m.role "assistant" then entry_or_empty (get_elem? log assistant_count) else ""

prepend : Option Message → Option (List Message) → Option (List Message)
prepend none ms = none
prepend (some m) none = none
prepend (some m) (some ms) = some (m ∷ ms)

-- The loop of `_messages_from_snapshot`; SYSTEM messages of older snapshots are dropped.
unfoldable pub messages_from : List String → List MessageSnapshot → ℕ → Option (List Message)
unfolding legacy_entry prepend message_from_snapshot
messages_from log [] assistant_count = some []
messages_from log (m ∷ ms) assistant_count =
    let rest =
      messages_from log ms
        (if str_eq m.role "assistant" then assistant_count + 1 else assistant_count) in
    if str_eq m.role "system"
    then rest
    else prepend (message_from_snapshot m (legacy_entry m log assistant_count)) rest

unfoldable pub with_messages :
    String → FilePath → RunSnapshot → Option (List Message) → Option RunState
with_messages run_id workspace s none = none
with_messages run_id workspace s (some messages) = some (record {
  run_id = run_id;
  workspace = workspace;
  messages = messages;
  completed_model_calls = s.completed_model_calls;
  usage = usage_from_snapshot s.usage;
  compaction = compaction_from_snapshot s.compaction;
  run_extra = s.run_extra;
  selected_skills = s.selected_skills;
  run_kind = s.run_kind;
  parent_run_id = s.parent_run_id;
})

unfoldable pub from_snapshot : String → FilePath → RunSnapshot → Option RunState
unfolding with_messages messages_from
from_snapshot run_id workspace s =
    with_messages run_id workspace s (messages_from s.legacy_reasoning_log s.messages 0)

module _ (codec : Codec) where
  unfoldable pub dump_run_state : RunState → codec.Encoded
  unfolding to_snapshot
  dump_run_state state = codec.encode (to_snapshot state)

  -- `none`: the text does not validate.
  unfoldable pub load_run_state : String → FilePath → codec.Encoded → Option RunState
  unfolding from_snapshot
  load_run_state run_id workspace raw = elim (codec.decode raw) [
    | none ↦ none
    | some s ↦ from_snapshot run_id workspace s
  ]
