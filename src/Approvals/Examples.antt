-- ===== src/Approvals/Examples.antt =====
-- Tests and instances: of two calls that wait, one is denied by the user.
use milky_frog_lite.Prelude.{[], ◌∷◌, none, ◌≡◌, refl, String, Dict, false}
use milky_frog_lite.Domain.Json.{empty}
use milky_frog_lite.Domain.Message.{ToolCall, ToolResult, error_result}
use milky_frog_lite.Domain.Approval.{ApprovalVerdict, deny}
use milky_frog_lite.Domain.Run.{RunState, new_state}
use milky_frog_lite.Transcript.{
  unmatched_tool_calls, append_tool_result, append_synthetic_tool_call, satisfied, requested,
}
use milky_frog_lite.Approvals.{
  prepared, decided, still_pending, apply_approvals, apply_pending, unless_cancelled,
  resolve_judged, open_calls, run_judged, after_batch, halt_on,
}
use milky_frog_lite.Approvals.Waiting.{still_pending_lem, apply_approvals-prepared}
use milky_frog_lite.Events.{World, returned, proceed}
use milky_frog_lite.Events.Hub.{new_hub, broadcast, deliver, sorted}
use milky_frog_lite.Events.ToolStep.{
  work_done, execute_verdict, resolve_batch, resolve_results, gather, pair, finishes,
}
use milky_frog_lite.Events.Loop.Model.{LoopHost}
use milky_frog_lite.Events.Loop.Batch.{fold_results}
use milky_frog_lite.Events.Loop.Folding.{answered}
use milky_frog_lite.Policy.{new_policy}
use milky_frog_lite.Registry.{ToolRegistry}

abbrev registry : ToolRegistry
registry = record { builtin_names = []; tools = [] }

abbrev host : LoopHost Unit
host = record {
  hub = new_hub;
  tool_host = record {
    has_cancellation = false;
    done_first = λ _ _. work_done;
    execute = λ _ _ _ x. (finishes (error_result "unused"), x);
  };
  policy = λ _. new_policy registry;
  schemas = λ _. [];
  context = record { context_loader = none; system_prompt = λ _ _. "be brief" };
  budget = none;
  text = record {
    str_of = λ _. "";
    str_of_int = λ _. "2";
    is_zero = λ _. false;
    char_count = λ _. 0;
    first_chars = λ _ s. s;
    rstrip = λ s. s;
  };
  is_cancelled = λ _. false;
  stream = λ _ _. [];
  after_stream = λ _ x. x;
  model_done = λ _ _. work_done;
  delivered = λ _ _. 0;
}

abbrev call : String → ToolCall
call id = record { id = id; name = "bash"; arguments = empty }

abbrev waiting : RunState
waiting =
    append_synthetic_tool_call (append_synthetic_tool_call (new_state "r" "/w") (call "a"))
      (call "b")

abbrev no : ApprovalVerdict
no = record { decision = deny; denial_reason = none }

abbrev one_verdict : Dict ApprovalVerdict
one_verdict = ("b", no) ∷ []

abbrev both : Dict ApprovalVerdict
both = ("a", no) ∷ ("b", no) ∷ []

abbrev refusal : ToolResult
refusal = error_result "denied by user"

abbrev world : World Unit
world = record { events = []; outside = tt }

abbrev after_both : RunState
after_both = append_tool_result (append_tool_result waiting (call "a") refusal) (call "b") refusal

still_pending_lem_example :
    unmatched_tool_calls (answered waiting (pair (call "b") refusal ∷ [])).messages
    ≡ still_pending one_verdict (unmatched_tool_calls waiting.messages)
unfolding append_synthetic_tool_call unmatched_tool_calls satisfied requested decided
still_pending_lem_example =
    still_pending_lem one_verdict waiting (pair (call "b") refusal ∷ []) refl

denies_both : (apply_approvals host waiting "r" both world).0 ≡ returned (prepared after_both)
unfolding append_synthetic_tool_call unmatched_tool_calls satisfied requested decided
    apply_approvals apply_pending unless_cancelled resolve_judged open_calls run_judged after_batch
    halt_on broadcast deliver sorted new_hub execute_verdict resolve_batch resolve_results gather
    fold_results append_tool_result proceed
denies_both = refl

apply_approvals-prepared_example : unmatched_tool_calls after_both.messages ≡ []
apply_approvals-prepared_example =
    apply_approvals-prepared host "r" both waiting after_both world denies_both
