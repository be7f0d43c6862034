-- ===== src/Events/Examples.antt =====
-- Tests and instances: a Run whose model answers without a Tool call, a batch with one denied
-- call, and a hub with three Handlers.
use milky_frog_lite.Prelude.{
  ℕ, ◌+◌, ◌≤◌, true, false, List, [], ◌∷◌, ◌++◌, none, some, ◌≡◌, refl, max, map, ◌⊎◌, arith,
}
use Prim.Native.String.{count}
use milky_frog_lite.Domain.Json.{empty}
use milky_frog_lite.Domain.Message.{ToolCall, deny, error_result}
use milky_frog_lite.Domain.Usage.{no_usage}
use milky_frog_lite.Domain.Run.{RunState, RunResult, new_state, ModelResponse}
use milky_frog_lite.Events.ToolStep.Errors.{execute_tool_raises, IsCancel}
use milky_frog_lite.Registry
use milky_frog_lite.Events.{tool_run_cancelled, Attempt, returned, World, proceed, raised}
use milky_frog_lite.Events.Hub.{Registration, new_hub, sorted, insert, broadcast, deliver}
use milky_frog_lite.Events.ToolStep.{
  poll_done, execute_tool, run_tool, waited, convert, run_cancellable, work_done, execute_decided,
  resolve_batch, resolve_results, gather, pair, call_of, ToolHost, finishes,
}
use milky_frog_lite.Events.Loop.{advance}
use milky_frog_lite.Events.Loop.Model.{LoopHost, stream_done, text_delta}
use milky_frog_lite.Events.Loop.Batch.{
  Decided, BatchResult, execute_decided_batch, announce, run_batch, fold_results, work_of,
}
use milky_frog_lite.Events.Loop.Folding.{
  answer, execute_decided_batch_lem, gathered, interrupts, returned_calls,
}
use milky_frog_lite.Events.Loop.Growth.{Evolves}
use milky_frog_lite.Events.Loop.Outcome.{Reports, advance-Reports}
use milky_frog_lite.Registry.{ToolRegistry}
use milky_frog_lite.Policy.{new_policy}
use milky_frog_lite.Transcript.{append_tool_result}

abbrev registry : ToolRegistry
registry = record { builtin_names = []; tools = [] }

abbrev reply : ModelResponse
reply = record { content = "done"; tool_calls = []; usage = no_usage; model = "m"; reasoning = "" }

abbrev host : LoopHost ℕ
host = record {
  hub = new_hub;
  tool_host = record {
    has_cancellation = false;
    done_first = λ _ _. work_done;
    execute = λ _ _ _ x. (finishes (error_result "unused"), x);
  };
  policy = λ _. new_policy registry;
  schemas = λ _. [];
  context = record { context_loader = none; system_prompt = λ _ _. "be brief" };
  budget = none;
  text = record {
    str_of = λ _. "";
    str_of_int = λ _. "2";
    is_zero = λ _. false;
    char_count = count;
    first_chars = λ _ s. s;
    rstrip = λ s. s;
  };
  is_cancelled = λ _. false;
  stream = λ _ _. text_delta "do" ∷ stream_done reply ∷ [];
  after_stream = λ _ x. x + 1;
  model_done = λ _ _. work_done;
  delivered = λ _ _. 0;
}

abbrev start : RunState
start = new_state "r" "/w"

abbrev world : World ℕ
world = record { events = []; outside = 0 }

advance-Reports_example :
    (final : RunState) × ((o : Attempt RunResult × World ℕ) × (advance host 3 2 start world
        ≡ some o)
      × Reports final o.0 o.1.events)
    × ((n : ℕ) × Evolves start final n)
    × (final.completed_model_calls ≤ max 2 0)
advance-Reports_example = advance-Reports host 3 2 start world (omega arith) (omega arith)

abbrev call : ToolCall
call = record { id = "a"; name = "bash"; arguments = empty }

abbrev denied : List Decided
denied = record { call = call; decision = deny } ∷ []

abbrev left : BatchResult
left = record {
  state = append_tool_result start call (error_result "denied by tool policy");
  cancelled = false;
  resolved = pair call (error_result "denied by tool policy") ∷ [];
}

denied_runs : (execute_decided_batch host "r" start denied world).0 ≡ returned left
unfolding execute_decided_batch announce run_batch fold_results work_of broadcast deliver proceed
    sorted execute_decided resolve_batch resolve_results gather new_hub
denied_runs = refl

execute_decided_batch_lem_example :
    (left.resolved ≡ returned_calls (gathered host "r" denied world))
    × (false ≡ interrupts (gathered host "r" denied world))
    × (left.state ≡ record start { messages = [] ++ map answer left.resolved })
    × ((false ≡ true) ⊎ (map call_of left.resolved ≡ map (λ (d : Decided). d.call) denied))
execute_decided_batch_lem_example =
    execute_decided_batch_lem host "r" denied start world left denied_runs

abbrev registered_at : ℕ → ℕ → Registration ℕ
registered_at priority order = record {
  priority = priority;
  order = order;
  handler = λ _ x. (returned none, x);
}

abbrev three : List (Registration ℕ)
three = registered_at 0 0 ∷ registered_at 100 1 ∷ registered_at 0 2 ∷ []

checkpoint_first : sorted three ≡ registered_at 100 1 ∷ registered_at 0 0 ∷ registered_at 0 2 ∷ []
unfolding sorted insert
checkpoint_first = refl

-- A Tool that is still running when the user interrupts it.
abbrev interrupted : ToolHost ℕ
interrupted = record {
  has_cancellation = true;
  done_first = λ _ _. poll_done;
  execute = λ _ _ _ x. (finishes (error_result "late"), x);
}

abbrev with_bash : ToolRegistry
with_bash = record {
  builtin_names = "bash" ∷ [];
  tools =
      record {
        name = "bash";
        description = "";
        input_schema = empty;
        requires_approval = true;
        needs_approval_for_call = none;
      }
      ∷ [];
}

interrupted_raises : (execute_tool interrupted with_bash call 0).0 ≡ raised tool_run_cancelled
unfolding execute_tool run_tool waited convert run_cancellable Registry.get
interrupted_raises = refl

execute_tool_raises_example : IsCancel interrupted with_bash call 0 tool_run_cancelled
execute_tool_raises_example =
    execute_tool_raises interrupted with_bash call 0 tool_run_cancelled interrupted_raises
