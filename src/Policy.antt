-- ===== src/Policy.antt =====
-- core/session_tool_policy.py: the mutable policy of a session, over one registry.
pub mod History
mod Examples
use milky_frog_lite.Domain.Json.{JsonObject}
use milky_frog_lite.Prelude.{
  Bool, true, false, String, List, [], Option, none, some, Dict, find, assign, if◌then◌else◌,
  filter, not,
}
use milky_frog_lite.Domain.Message.{ToolCall, ToolDecision, allow, deny, needs_approval}
use milky_frog_lite.Registry
use milky_frog_lite.Registry.{Tool, ToolRegistry}

pub data Mode : Type 0 where
  default auto : Mode

pub record SessionToolPolicy : Type 0 where
  pub registry : ToolRegistry
  pub mode : Mode
  pub overrides : Dict ToolDecision

abbrev pub new_policy : ToolRegistry → SessionToolPolicy
new_policy registry = record { registry = registry; mode = default; overrides = [] }

unfoldable pub auto_approve : SessionToolPolicy → SessionToolPolicy
auto_approve p = record p { mode = auto }

unfoldable pub reset : SessionToolPolicy → SessionToolPolicy
reset p = record p { mode = default; overrides = [] }

unfoldable pub require_approval : SessionToolPolicy → String → SessionToolPolicy
require_approval p name = record p { overrides = assign p.overrides name needs_approval }

unfoldable pub deny_tool : SessionToolPolicy → String → SessionToolPolicy
deny_tool p name = record p { overrides = assign p.overrides name deny }

unfoldable pub allow_tool : SessionToolPolicy → String → SessionToolPolicy
allow_tool p name = record p { overrides = assign p.overrides name allow }

per_call : Option (JsonObject → Bool) → JsonObject → Bool
per_call none arguments = true
per_call (some needs) arguments = needs arguments

unfoldable pub call_needs_approval : Tool → ToolCall → Bool
unfolding per_call
call_needs_approval tool call =
    if tool.requires_approval then per_call tool.needs_approval_for_call call.arguments else false

unfoldable pub decide_tool : Option Tool → ToolCall → ToolDecision
decide_tool none call = needs_approval
decide_tool (some tool) call = if call_needs_approval tool call then needs_approval else allow

decide_mode : Mode → ToolRegistry → ToolCall → ToolDecision
unfolding decide_tool
decide_mode auto registry call = allow
decide_mode default registry call = decide_tool (Registry.get registry call.name) call

decide_override : Option ToolDecision → Mode → ToolRegistry → ToolCall → ToolDecision
unfolding decide_mode
decide_override (some d) mode registry call = d
decide_override none mode registry call = decide_mode mode registry call

unfoldable pub decide : SessionToolPolicy → ToolCall → ToolDecision
unfolding decide_override
decide p call = decide_override (find p.overrides call.name) p.mode p.registry call

-- `approval_free_tool_names`
unfoldable pub approval_free_tool_names : ToolRegistry → List String
approval_free_tool_names r = Registry.names (filter (λ (t : Tool). not t.requires_approval) r.tools)
