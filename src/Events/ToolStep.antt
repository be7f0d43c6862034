-- ===== src/Events/ToolStep.antt =====
-- events/tool_step.py and core/runtime/execute_tool.py: how one Tool call runs, and how a batch of
-- them does. What a Tool itself does is a parameter, and so is which of two tasks ends first. The
-- Tools of a batch are started together; here they run one after another in the order of the
-- request, and what each of them returns is arbitrary, as it is under any interleaving.
pub mod Errors
use milky_frog_lite.Prelude.{
  Bool, true, false, String, List, [], ◌∷◌, Option, none, some, str_eq, if◌then◌else◌, fstring,
}
use milky_frog_lite.Domain.Json.{JsonValue, JsonObject, str, get}
use milky_frog_lite.Domain.Message.{
  ToolCall, ToolResult, ToolDecision, allow, deny, needs_approval, error_result,
}
use milky_frog_lite.Domain.Approval.{ApprovalVerdict, ApprovalDecision, approve}
use milky_frog_lite.Registry.{Tool, ToolRegistry}
use milky_frog_lite.Registry
use milky_frog_lite.Events.{
  tool_run_cancelled, task_cancelled, error, Attempt, returned, raised, Raised,
}

-- Which tasks `asyncio.wait` reports as done: the work, the poll of the cancellation, or both. At
-- least one is.
pub data Done : Type 0 where
  work_done poll_done both_done : Done

-- `run_cancellable` behind `asyncio.wait`: the tie is the work's only if completed work is kept.
unfoldable pub run_cancellable : {A : Type 0} → Bool → Done → Attempt A → Attempt A
run_cancellable keep work_done work = work
run_cancellable keep poll_done work = raised tool_run_cancelled
run_cancellable true both_done work = work
run_cancellable false both_done work = raised tool_run_cancelled

prefix_of : Option JsonValue → String
prefix_of (some (str path)) = if str_eq path "." then "" else path
prefix_of _ = ""

-- `_extract_search_prefix`
unfoldable pub extract_search_prefix : JsonObject → String
unfolding prefix_of
extract_search_prefix arguments = prefix_of (get arguments "path")

-- How a Tool ends: with a result, with the cooperative cancel, with an Exception, given by name and
-- text, or with the CancelledError of asyncio, which is no Exception.
pub data ToolEnd : Type 0 where
  finishes : ToolResult → ToolEnd
  is_interrupted : ToolEnd
  breaks : String → String → ToolEnd
  is_abandoned : ToolEnd

unfoldable pub attempt_of : ToolEnd → Attempt ToolResult
attempt_of (finishes result) = returned result
attempt_of is_interrupted = raised tool_run_cancelled
attempt_of (breaks name message) = raised (error name message none)
attempt_of is_abandoned = raised task_cancelled

-- What surrounds a Tool: whether there is a cancellation to poll; which task of a call ends first;
-- and the Tool itself, its validation of the arguments included, given the search prefix.
pub record ToolHost (X : Type 0) : Type 0 where
  pub has_cancellation : Bool
  pub done_first : ToolCall → X → Done
  pub execute : Tool → String → ToolCall → X → ToolEnd × X

-- `except ToolRunCancelled: raise`, `except Exception as error`; a CancelledError of the task is no
-- Exception.
unfoldable pub convert : Attempt ToolResult → Attempt ToolResult
convert (returned result) = returned result
convert (raised tool_run_cancelled) = raised tool_run_cancelled
convert (raised task_cancelled) = raised task_cancelled
convert (raised (error name message upstream)) =
    returned (error_result (fstring (name ∷ ": " ∷ message ∷ [])))

module _ {X : Type 0} (host : ToolHost X) (tools : ToolRegistry) where
  -- without a cancellation the task is awaited
  unfoldable pub waited : ToolCall → X → ToolEnd → Attempt ToolResult
  unfolding attempt_of
  waited call x end =
      if host.has_cancellation
      then run_cancellable true (host.done_first call x) (attempt_of end)
      else attempt_of end

  unfoldable pub run_tool : Option Tool → ToolCall → X → Attempt ToolResult × X
  unfolding waited
  run_tool none call x = (raised (error "UnknownToolError" call.name none), x)
  run_tool (some tool) call x = (
    waited call x (host.execute tool (extract_search_prefix call.arguments) call x).0,
    (host.execute tool (extract_search_prefix call.arguments) call x).1,
  )

  unfoldable pub execute_tool : ToolCall → X → Attempt ToolResult × X
  unfolding convert run_tool
  execute_tool call x = (
    convert (run_tool (Registry.get tools call.name) call x).0,
    (run_tool (Registry.get tools call.name) call x).1,
  )

  unfoldable pub execute_decided : ToolCall → ToolDecision → X → Attempt ToolResult × X
  unfolding execute_tool
  execute_decided call deny x = (returned (error_result "denied by tool policy"), x)
  execute_decided call allow x = execute_tool call x
  execute_decided call needs_approval x = execute_tool call x

  denial : Option String → String
  denial none = "denied by user"
  denial (some reason) =
      if str_eq reason ""
      then "denied by user"
      else fstring ("denied by user" ∷ " (reason: " ∷ reason ∷ ")" ∷ [])

  unfoldable pub denied_or :
      ApprovalDecision → Option String → ToolCall → X → Attempt ToolResult × X
  unfolding execute_tool denial
  denied_or ApprovalDecision.deny reason call x = (returned (error_result (denial reason)), x)
  denied_or approve reason call x = execute_tool call x

  unfoldable pub execute_verdict : ToolCall → ApprovalVerdict → X → Attempt ToolResult × X
  unfolding denied_or
  execute_verdict call verdict x = denied_or verdict.decision verdict.denial_reason call x

-- One pair of the loop over `zip(calls, results)`: a call with its result, or with an exception
-- other than ToolRunCancelled, which `gather` returned and `cast` takes for a result.
pub data Resolved : Type 0 where
  pair : ToolCall → ToolResult → Resolved
  miscast : ToolCall → Raised → Resolved

abbrev pub call_of : Resolved → ToolCall
call_of (pair call _) = call
call_of (miscast call _) = call

abbrev pub keep_resolved :
    ToolCall → Attempt ToolResult → List Resolved × Bool → List Resolved × Bool
keep_resolved call (returned result) rest = (pair call result ∷ rest.0, rest.1)
keep_resolved call (raised tool_run_cancelled) rest = (rest.0, true)
keep_resolved call (raised task_cancelled) rest = (miscast call task_cancelled ∷ rest.0, rest.1)
keep_resolved call (raised (error name message upstream)) rest =
    (miscast call (error name message upstream) ∷ rest.0, rest.1)

-- `resolve_batch`: the results of a batch, in the order of the request
unfoldable pub resolve_results : List (ToolCall × Attempt ToolResult) → List Resolved × Bool
resolve_results [] = ([], false)
resolve_results (entry ∷ entries) = keep_resolved entry.0 entry.1 (resolve_results entries)

module _ {X : Type 0} where
  -- `asyncio.gather` over the awaitables
  unfoldable pub gather :
      List (ToolCall × (X → Attempt ToolResult × X)) → X → List (ToolCall × Attempt ToolResult) × X
  gather [] x = ([], x)
  gather ((call, work) ∷ batch) x =
      ((call, (work x).0) ∷ (gather batch (work x).1).0, (gather batch (work x).1).1)

  unfoldable pub resolve_batch :
      List (ToolCall × (X → Attempt ToolResult × X)) → X → (List Resolved × Bool) × X
  unfolding gather resolve_results
  resolve_batch batch x = (resolve_results (gather batch x).0, (gather batch x).1)
