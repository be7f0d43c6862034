-- ===== src/Events/Loop/Batch.antt =====
-- events/loop.py, `_execute_decided_batch` and the decisions on a batch of calls.
use milky_frog_lite.Prelude.{
  Bool, true, false, not, String, List, [], ◌∷◌, Option, none, some, map, filter, fstring,
}
use milky_frog_lite.Domain.Message.{
  ToolCall, ToolResult, ToolDecision, allow, deny, needs_approval, FollowUpCall,
}
use milky_frog_lite.Domain.Run.{RunState}
use milky_frog_lite.Transcript.{append_tool_result, append_synthetic_tool_call}
use milky_frog_lite.Policy.{decide}
use milky_frog_lite.Events.{
  Attempt, World, Effect, ◌>>=◌, give, returned, raised, Raised, error, tool_run_cancelled,
  task_cancelled, run_before_tool, run_after_tool,
}
use milky_frog_lite.Events.Hub.{broadcast}
use milky_frog_lite.Events.ToolStep.{Resolved, pair, miscast, execute_decided, resolve_batch}
use milky_frog_lite.Events.Loop.Model.{LoopHost}

-- A call with its decision.
pub record Decided : Type 0 where
  pub call : ToolCall
  pub decision : ToolDecision

abbrev pub waits : ToolDecision → Bool
waits needs_approval = true
waits allow = false
waits deny = false

abbrev pub runnable : List Decided → List Decided
runnable = filter (λ (d : Decided). not (waits d.decision))

-- The calls that need approval.
abbrev pub pending : List Decided → List ToolCall
pending ds = map (λ (d : Decided). d.call) (filter (λ (d : Decided). waits d.decision) ds)

-- What a batch returns.
pub record BatchResult : Type 0 where
  pub state : RunState
  pub cancelled : Bool
  pub resolved : List Resolved

-- `outcome.follow_up` turned into a call of its own
abbrev pub follow_up_call : ToolCall → FollowUpCall → ToolCall
follow_up_call call follow_up = record {
  id = fstring (call.id ∷ ":follow-up" ∷ []);
  name = follow_up.tool_name;
  arguments = follow_up.arguments;
}

abbrev pub follow_ups_of : ToolCall → Option FollowUpCall → List ToolCall → List ToolCall
follow_ups_of call none calls = calls
follow_ups_of call (some follow_up) calls = follow_up_call call follow_up ∷ calls

-- `synthesized`: the follow-up calls that a batch asks for. No exception comes this far, since the
-- loop over the results raises on it.
unfoldable pub synthesized : List Resolved → List ToolCall
synthesized [] = []
synthesized (pair call outcome ∷ resolved) =
    follow_ups_of call outcome.follow_up (synthesized resolved)
synthesized (miscast _ _ ∷ resolved) = synthesized resolved

-- the loop that appends them
unfoldable pub append_synthesized : RunState → List ToolCall → RunState
append_synthesized state [] = state
append_synthesized state (call ∷ calls) =
    append_synthesized (append_synthetic_tool_call state call) calls

abbrev pub no_attribute : String → Raised
no_attribute name =
    error "AttributeError" (fstring ("'" ∷ name ∷ "' object has no attribute 'content'" ∷ [])) none

-- what reading `.content` of an exception raises
abbrev pub no_content : Raised → Raised
no_content tool_run_cancelled = no_attribute "ToolRunCancelled"
no_content task_cancelled = no_attribute "CancelledError"
no_content (error name _ _) = no_attribute name

abbrev pub fail : {X A : Type 0} → Raised → Effect X A
fail e w = (raised e, w)

module _ {X : Type 0} (host : LoopHost X) where
  -- `self._tool_step.decide(call)` for each call
  unfoldable pub decide_all : List ToolCall → World X → List Decided
  decide_all calls w =
      map (λ (c : ToolCall). record { call = c; decision = decide (host.policy w.outside) c }) calls

  unfoldable pub announce : String → List Decided → Effect X (List Decided)
  announce run_id [] = give []
  announce run_id (d ∷ ds) = do
    _ ← broadcast host.hub (run_before_tool run_id d.call)
    announce run_id ds

  unfoldable pub work_of : Decided → ToolCall × (X → Attempt ToolResult × X)
  unfolding execute_decided
  work_of d =
      (d.call, λ x. execute_decided host.tool_host (host.policy x).registry d.call d.decision x)

  unfoldable pub run_batch : List Decided → Effect X (List Resolved × Bool)
  unfolding work_of
  run_batch ds w = (
    returned (resolve_batch (map work_of ds) w.outside).0,
    record w { outside = (resolve_batch (map work_of ds) w.outside).1 },
  )

  -- the loop over what was resolved
  unfoldable pub fold_results : String → RunState → List Resolved → Effect X RunState
  fold_results run_id state [] = give state
  fold_results run_id state (pair call outcome ∷ resolved) = do
    let grown = append_tool_result state call outcome
    _ ← broadcast host.hub (run_after_tool run_id call outcome grown)
    fold_results run_id grown resolved
  fold_results run_id state (miscast _ e ∷ _) = fail (no_content e)

  unfoldable pub execute_decided_batch : String → RunState → List Decided → Effect X BatchResult
  unfolding announce run_batch fold_results
  execute_decided_batch run_id state [] =
      give (record { state = state; cancelled = false; resolved = [] })
  execute_decided_batch run_id state (d ∷ ds) = do
    _ ← announce run_id (d ∷ ds)
    ran ← run_batch (d ∷ ds)
    grown ← fold_results run_id state ran.0
    give (record { state = grown; cancelled = ran.1; resolved = ran.0 })
