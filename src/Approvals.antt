-- ===== src/Approvals.antt =====
-- harness/harness.py, `_apply_approvals`: the calls of a Run that waits for approval are resolved
-- by the user's verdicts before the loop goes on.
pub mod Waiting
mod Examples
use milky_frog_lite.Prelude.{
  Bool, true, false, not, String, List, [], ◌∷◌, Option, none, some, map, filter, find, Dict,
}
use milky_frog_lite.Domain.Message.{ToolCall, ToolResult}
use milky_frog_lite.Domain.Approval.{ApprovalVerdict}
use milky_frog_lite.Domain.Run.{RunState, RunResult}
use milky_frog_lite.Transcript.{unmatched_tool_calls}
use milky_frog_lite.Events.{Attempt, returned, World, Effect, ◌>>=◌, give, run_before_tool}
use milky_frog_lite.Events.Hub.{broadcast}
use milky_frog_lite.Events.Emitter.{finish_cancelled, finish_approval_needed}
use milky_frog_lite.Events.ToolStep.{Resolved, execute_verdict, resolve_batch}
use milky_frog_lite.Events.Loop.Model.{LoopHost}
use milky_frog_lite.Events.Loop.Batch.{fold_results}

-- `PreparedRun`, without its sandbox, or the result of a Run that halts again.
pub data Applied : Type 0 where
  prepared : RunState → Applied
  halted : RunResult → Applied

abbrev pub is_some : {A : Type 0} → Option A → Bool
is_some none = false
is_some (some _) = true

-- `call.id in verdicts`
abbrev pub has_verdict : Dict ApprovalVerdict → String → Bool
has_verdict verdicts id = is_some (find verdicts id)

-- A call with its verdict.
pub record Judged : Type 0 where
  pub call : ToolCall
  pub verdict : ApprovalVerdict

abbrev pub judge : ToolCall → Option ApprovalVerdict → List Judged → List Judged
judge call none rest = rest
judge call (some verdict) rest = record { call = call; verdict = verdict } ∷ rest

-- `decided`
unfoldable pub decided : Dict ApprovalVerdict → List ToolCall → List Judged
decided verdicts [] = []
decided verdicts (c ∷ pending) = judge c (find verdicts c.id) (decided verdicts pending)

-- `still_pending`
abbrev pub still_pending : Dict ApprovalVerdict → List ToolCall → List ToolCall
still_pending verdicts pending = filter (λ c. not (has_verdict verdicts c.id)) pending

module _ {X : Type 0} (host : LoopHost X) where
  unfoldable pub open_calls : String → List Judged → Effect X (List Judged)
  open_calls run_id [] = give []
  open_calls run_id (j ∷ js) = do
    _ ← broadcast host.hub (run_before_tool run_id j.call)
    open_calls run_id js

  abbrev pub verdict_work : Judged → ToolCall × (X → Attempt ToolResult × X)
  verdict_work j =
      (j.call, λ x. execute_verdict host.tool_host (host.policy x).registry j.call j.verdict x)

  unfoldable pub run_judged : List Judged → Effect X (List Resolved × Bool)
  run_judged js w = (
    returned (resolve_batch (map verdict_work js) w.outside).0,
    record w { outside = (resolve_batch (map verdict_work js) w.outside).1 },
  )

  unfoldable pub halt : Effect X RunResult → Effect X Applied
  halt finish = do result ← finish; give (halted result)

  -- `if still_pending`
  unfoldable pub halt_on : List ToolCall → RunState → Effect X Applied
  unfolding halt
  halt_on [] state = give (prepared state)
  halt_on (c ∷ cs) state = halt (finish_approval_needed host.hub host.text state (c ∷ cs))

  unfoldable pub after_batch : Bool → List ToolCall → RunState → Effect X Applied
  unfolding halt_on halt
  after_batch true still state = halt (finish_cancelled host.hub state "cancelled")
  after_batch false still state = halt_on still state

  -- `if decided`
  unfoldable pub resolve_judged : String → RunState → List Judged → List ToolCall → Effect X Applied
  unfolding open_calls run_judged after_batch
  resolve_judged run_id state [] still = halt_on still state
  resolve_judged run_id state (j ∷ js) still = do
    _ ← open_calls run_id (j ∷ js)
    ran ← run_judged (j ∷ js)
    grown ← fold_results host run_id state ran.0
    after_batch ran.1 still grown

  unfoldable pub unless_cancelled : Bool → RunState → Effect X Applied → Effect X Applied
  unfolding halt
  unless_cancelled true state rest = halt (finish_cancelled host.hub state "cancelled")
  unless_cancelled false state rest = rest

  unfoldable pub apply_pending :
      String → RunState → Dict ApprovalVerdict → List ToolCall → Effect X Applied
  unfolding unless_cancelled resolve_judged
  apply_pending run_id state verdicts [] w = give (prepared state) w
  apply_pending run_id state verdicts (c ∷ cs) w =
      unless_cancelled (host.is_cancelled w.outside) state
        (resolve_judged run_id state (decided verdicts (c ∷ cs)) (still_pending verdicts (c ∷ cs)))
        w

  unfoldable pub apply_approvals : RunState → String → Dict ApprovalVerdict → Effect X Applied
  unfolding apply_pending
  apply_approvals state run_id verdicts =
      apply_pending run_id state verdicts (unmatched_tool_calls state.messages)
