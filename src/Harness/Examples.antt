-- ===== src/Harness/Examples.antt =====
-- Instances: a Run whose model answers at once, and the resume of one that is stored.
use milky_frog_lite.Handlers.Broadcasts.{IsConcluded}
use milky_frog_lite.Transcript.{start_run}
use milky_frog_lite.Events.Emitter.{finish_completed}
use milky_frog_lite.Events.Loop.Turn.{turn, step_on}
use milky_frog_lite.Events.Loop.{advance, continues}
use milky_frog_lite.Events.Loop.Landing.{Lands}
use Prim.Native.String.{count, String}
use milky_frog_lite.Policy.{new_policy}
use milky_frog_lite.Events.ToolStep.{work_done, finishes}
use milky_frog_lite.Domain.Usage.{no_usage}
use milky_frog_lite.Checkpoint.{Row, find_row, create_run}
use milky_frog_lite.Events.Hub.{EventHub, broadcast}
use milky_frog_lite.Events.{returned, World, Attempt, raised, proceed, type_of}
use milky_frog_lite.Prelude.{
  List, [], true, none, refl, false, some, ◌∷◌, Option, String, ◌≡◌, arith, Bool,
}
use milky_frog_lite.Snapshot.{Codec, RunSnapshot, to_snapshot}
use milky_frog_lite.Registry.{ToolRegistry}
use milky_frog_lite.Handlers.{Store, register}
use milky_frog_lite.Domain.Run.{
  ModelResponse, RunRequest, foreground, running, RunResult, new_state, RunState,
}
use milky_frog_lite.Events.Loop.Model.{LoopHost, stream_done, cancellable_turn}
use milky_frog_lite.Domain.Message.{error_result}
use milky_frog_lite.Harness.{go_on, prepare_run, run}
use milky_frog_lite.Harness.Host.{HarnessHost}
use milky_frog_lite.Harness.Durable.{with_checkpoints, run-IsSaved, StartedFrom}
use milky_frog_lite.Harness.Saved.{EndsSaved, ResumedFrom}

abbrev verbatim : Codec
verbatim = record {
  Encoded = RunSnapshot;
  encode = λ s. s;
  decode = λ s. some s;
  decode-encode = λ s h. refl;
}

abbrev Rows : Type 0
Rows = List (Row verbatim)

abbrev table : Store verbatim Rows
table = record {
  rows_of = λ rows. rows;
  put = λ rows _. rows;
  now = λ _. 7;
  rows_of-put = λ rows x. refl;
}

abbrev registry : ToolRegistry
registry = record { builtin_names = []; tools = [] }

abbrev reply : ModelResponse
reply = record { content = "done"; tool_calls = []; usage = no_usage; model = "m"; reasoning = "" }

abbrev alone : EventHub Rows
alone = record { registered = λ _. []; next_order = 0 }

abbrev loop : LoopHost Rows
loop = record {
  hub = alone;
  tool_host = record {
    has_cancellation = false;
    done_first = λ _ _. work_done;
    execute = λ _ _ _ x. (finishes (error_result "unused"), x);
  };
  policy = λ _. new_policy registry;
  schemas = λ _. [];
  context = record { context_loader = none; system_prompt = λ _ _. "be brief" };
  budget = none;
  text = record {
    str_of = λ _. "";
    str_of_int = λ _. "2";
    is_zero = λ _. false;
    char_count = count;
    first_chars = λ _ s. s;
    rstrip = λ s. s;
  };
  is_cancelled = λ _. false;
  stream = λ _ _. stream_done reply ∷ [];
  after_stream = λ _ x. x;
  model_done = λ _ _. work_done;
  delivered = λ _ _. 0;
}

abbrev host : HarnessHost verbatim Rows
host = record {
  loop = loop;
  store = table;
  fresh_id = λ _. "r1";
  resolve_path = λ p _. returned p;
  is_free = λ _ _. true;
  sandbox_error = λ _ _. none;
  approximate = record { count_text = λ _. 0; dump_calls = λ _. ""; dump_schema = λ _. "" };
  project_config =
      λ _. returned record { context_window = 100; output_reserve = 10; safety_margin = 5 };
}

abbrev request : RunRequest
request = record {
  prompt = "go";
  workspace = "/w";
  max_model_calls = 2;
  skill_content = none;
  selected_skills = [];
  run_kind = foreground;
  parent_run_id = none;
}

abbrev world : World Rows
world = record { events = []; outside = [] }

abbrev with_handler : HarnessHost verbatim Rows
with_handler = with_checkpoints host alone (λ t. tt)

run-IsSaved_example :
    (o : Attempt RunResult × World Rows) × (run with_handler 3 request world ≡ some o)
    × Lands (IsConcluded table (StartedFrom host alone (λ t. tt) request world)) o.0 o.1
run-IsSaved_example =
    run-IsSaved host alone (λ t. tt) (λ _ _ _ x h. h) (λ _ _ _ _ _ x h. h) 3 request world
      (omega arith) (omega arith)

abbrev stored_row : Row verbatim
stored_row = record {
  stored = record {
    run_id = "a";
    workspace = "/w";
    status = running;
    created_at = 1;
    updated_at = 5;
    final_message = none;
  };
  state_json = to_snapshot (new_state "a" "/w");
}

abbrev stored_world : World Rows
stored_world = record { events = []; outside = stored_row ∷ [] }

abbrev EndsWell : (Bool → RunState → RunState) → Option (Attempt RunResult × World Rows) → Type 0
EndsWell prepare =
    EndsSaved host alone (λ t. tt) (λ _ _ _ _ _ x h. h) (λ _ _ _ x h. h) "a"
      (ResumedFrom host alone (λ t. tt) (λ _ _ _ _ _ x h. h) (λ _ _ _ x h. h) "a" prepare
        stored_world)

-- The first Run does return its result.
abbrev returns : Option (Attempt RunResult × World Rows) → Bool
returns (some (returned r, w)) = true
returns (some (raised e, w)) = false
returns none = false

run-returns : returns (run with_handler 3 request world) ≡ true
unfolding run go_on prepare_run proceed create_run find_row broadcast register type_of advance
    continues start_run turn step_on cancellable_turn finish_completed
run-returns = refl
