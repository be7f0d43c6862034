-- ===== src/Policy/History.antt =====
-- `decide` against the history of the policy's operations: what the last ones said counts.
use milky_frog_lite.Domain.Json.{JsonObject}
use milky_frog_lite.Registry.{ToolRegistry, Tool}
use milky_frog_lite.Domain.Message.{ToolDecision, ToolCall, allow, needs_approval, deny}
use milky_frog_lite.Policy.{
  auto_approve, decide, Mode, find, SessionToolPolicy, none, auto, reset, true, some,
  require_approval, new_policy, default, deny_tool, allow_tool, decide_tool, decide_override,
  call_needs_approval, decide_mode, JsonObject, per_call,
}
use milky_frog_lite.Registry
use milky_frog_lite.Prelude.{
  Bool, String, List, [], ◌∷◌, Option, false, ◌≡◌, true, find, none, if◌then◌else◌, find-assign,
  str_eq, refl,
}

pub data PolicyOp : Type 0 where
  auto_approves resets : PolicyOp
  requires denies allows : String → PolicyOp

unfoldable pub operate : SessionToolPolicy → PolicyOp → SessionToolPolicy
unfolding auto_approve reset require_approval deny_tool allow_tool
operate p auto_approves = auto_approve p
operate p resets = reset p
operate p (requires n) = require_approval p n
operate p (denies n) = deny_tool p n
operate p (allows n) = allow_tool p n

-- The policy of a session after some operations, the newest first.
unfoldable pub after : ToolRegistry → List PolicyOp → SessionToolPolicy
unfolding operate
after registry [] = new_policy registry
after registry (op ∷ history) = operate (after registry history) op

-- The newest override of a name since the last reset.
pub newest_override : List PolicyOp → String → Option ToolDecision
newest_override [] name = none
newest_override (auto_approves ∷ h) name = newest_override h name
newest_override (resets ∷ h) name = none
newest_override (requires n ∷ h) name =
    if str_eq n name then some needs_approval else newest_override h name
newest_override (denies n ∷ h) name = if str_eq n name then some deny else newest_override h name
newest_override (allows n ∷ h) name = if str_eq n name then some allow else newest_override h name

-- Whether the user approved everything since the last reset.
pub approves_all : List PolicyOp → Bool
approves_all [] = false
approves_all (auto_approves ∷ h) = true
approves_all (resets ∷ h) = false
approves_all (requires n ∷ h) = approves_all h
approves_all (denies n ∷ h) = approves_all h
approves_all (allows n ∷ h) = approves_all h

find-after :
    (registry : ToolRegistry) (h : List PolicyOp) (name : String)
    → find (after registry h).overrides name ≡ newest_override h name
unfolding after newest_override
find-after registry [] name = refl
find-after registry (auto_approves ∷ h) name = find-after registry h name
find-after registry (resets ∷ h) name = refl
find-after registry (requires n ∷ h) name = rw (find-assign) (rw (find-after registry h name))
find-after registry (denies n ∷ h) name = rw (find-assign) (rw (find-after registry h name))
find-after registry (allows n ∷ h) name = rw (find-assign) (rw (find-after registry h name))

abbrev pub mode_of : Bool → Mode
mode_of true = auto
mode_of false = default

mode-after :
    (registry : ToolRegistry) (h : List PolicyOp)
    → (after registry h).mode ≡ mode_of (approves_all h)
unfolding after approves_all
mode-after registry [] = refl
mode-after registry (auto_approves ∷ h) = refl
mode-after registry (resets ∷ h) = refl
mode-after registry (requires n ∷ h) = mode-after registry h
mode-after registry (denies n ∷ h) = mode-after registry h
mode-after registry (allows n ∷ h) = mode-after registry h

registry-after :
    (registry : ToolRegistry) (h : List PolicyOp) → (after registry h).registry ≡ registry
unfolding after
registry-after registry [] = refl
registry-after registry (auto_approves ∷ h) = registry-after registry h
registry-after registry (resets ∷ h) = registry-after registry h
registry-after registry (requires n ∷ h) = registry-after registry h
registry-after registry (denies n ∷ h) = registry-after registry h
registry-after registry (allows n ∷ h) = registry-after registry h

-- What a Tool asks for, by its flag and by its test of the arguments.
pub asked : Bool → Option (JsonObject → Bool) → JsonObject → ToolDecision
asked false test arguments = allow
asked true none arguments = needs_approval
asked true (some test) arguments = if test arguments then needs_approval else allow

pub asked_by : Option Tool → JsonObject → ToolDecision
asked_by none arguments = needs_approval
asked_by (some tool) arguments = asked tool.requires_approval tool.needs_approval_for_call arguments

-- What a call is decided by, given the newest override and whether everything was approved.
pub decision_by : Option ToolDecision → Bool → ToolRegistry → ToolCall → ToolDecision
decision_by (some d) approved registry call = d
decision_by none true registry call = allow
decision_by none false registry call = asked_by (Registry.get registry call.name) call.arguments

asked_lem :
    (tool : Tool) (b : Bool) (test : Option (JsonObject → Bool)) (call : ToolCall)
    → tool.requires_approval ≡ b
    → tool.needs_approval_for_call ≡ test
    → decide_tool (some tool) call ≡ asked b test call.arguments
unfolding decide_tool call_needs_approval per_call asked
asked_lem tool false test call e f = rw e refl
asked_lem tool true none call e f = rw (e, f) refl
asked_lem tool true (some test) call e f = rw (e, f) refl

decide_tool_lem :
    (found : Option Tool) (call : ToolCall) → decide_tool found call ≡ asked_by found call.arguments
unfolding decide_tool asked_by
decide_tool_lem none call = refl
decide_tool_lem (some tool) call = asked_lem tool _ _ call refl refl

decide_override_lem :
    (o : Option ToolDecision) (b : Bool) (registry : ToolRegistry) (call : ToolCall)
    → decide_override o (mode_of b) registry call ≡ decision_by o b registry call
unfolding decide_override decide_mode decision_by
decide_override_lem (some d) b registry call = refl
decide_override_lem none true registry call = refl
decide_override_lem none false registry call =
    decide_tool_lem (Registry.get registry call.name) call

-- After any operations, a call is decided by the newest override of its Tool since the last reset;
-- without one it is allowed if everything was approved since then; otherwise an unknown Tool needs
-- approval, and a known one exactly if it requires approval and has no test of the arguments or
-- one that says so.
pub decide-after :
    (registry : ToolRegistry) (h : List PolicyOp) (call : ToolCall)
    → decide (after registry h) call
      ≡ decision_by (newest_override h call.name) (approves_all h) registry call
unfolding decide
decide-after registry h call =
    rw (find-after registry h call.name, mode-after registry h, registry-after registry h)
      (decide_override_lem (newest_override h call.name) (approves_all h) registry call)
