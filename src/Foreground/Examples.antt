-- ===== src/Foreground/Examples.antt =====
-- Instances: a session with an empty store, and one whose task is cancelled as it goes on with a
-- stored Run.
use milky_frog_lite.Transcript.{seal}
use milky_frog_lite.Foreground.Cancelled.{go_on_with-IsInterrupted, IsInterrupted}
use milky_frog_lite.Harness.{
  go_on, resume, prepare_resumed, resume_claimed, require_run, refuse_if, advance_prepared,
  make_sandbox,
}
use milky_frog_lite.Harness.Host.{HarnessHost, repaired, reskilled}
use milky_frog_lite.Harness.Entry.{not_ok, eq_of_returned-eq}
use milky_frog_lite.Foreground.{
  Session, ForegroundHost, start_new, continue_with, respond_approval, respond_approvals,
  HarnessHost, ℕ, resume, go_on_with, Bool,
}
use milky_frog_lite.Foreground.Idle.{foreground-IsIdle, LeavesIdle}
use milky_frog_lite.Foreground.Recorded.{
  foreground-IsRecorded, EndsRecorded, attached, TaskFrom, TokenFrom,
}
use milky_frog_lite.Transcript.Roles.{IsTranscript}
use milky_frog_lite.Domain.Approval.{ApprovalVerdict}
use Prim.Native.String.{count, String}
use milky_frog_lite.Policy.{new_policy}
use milky_frog_lite.Events.ToolStep.{work_done, finishes}
use milky_frog_lite.Domain.Usage.{no_usage}
use milky_frog_lite.Checkpoint.{Row, load_state, decoded, find_row, StoredRun, get_run, stored_of}
use milky_frog_lite.Events.Hub.{EventHub, broadcast, deliver, sorted, insert}
use milky_frog_lite.Events.{
  returned, Attempt, World, raised, task_cancelled, proceed, run_before_resume,
}
use milky_frog_lite.Prelude.{
  List, [], true, none, refl, false, some, ◌∷◌, Option, String, ◌≡◌, Dict, arith, ok, subst, ℕ, ◌<◌,
  Bool,
}
use milky_frog_lite.Snapshot.{Codec, RunSnapshot, to_snapshot, load_run_state, from_snapshot}
use milky_frog_lite.Registry.{ToolRegistry}
use milky_frog_lite.Handlers.{Store}
use milky_frog_lite.Domain.Run.{
  ModelResponse, RunState, FilePath, running, foreground, new_state, RunResult,
}
use milky_frog_lite.Events.Loop.Model.{LoopHost, stream_done}
use milky_frog_lite.Domain.Message.{error_result}

abbrev verbatim : Codec
verbatim = record {
  Encoded = RunSnapshot;
  encode = λ s. s;
  decode = λ s. some s;
  decode-encode = λ s h. refl;
}

abbrev Rows : Type 0
Rows = List (Row verbatim)

abbrev table : Store verbatim Rows
table = record {
  rows_of = λ rows. rows;
  put = λ rows _. rows;
  now = λ _. 7;
  rows_of-put = λ rows x. refl;
}

abbrev registry : ToolRegistry
registry = record { builtin_names = []; tools = [] }

abbrev reply : ModelResponse
reply = record { content = "done"; tool_calls = []; usage = no_usage; model = "m"; reasoning = "" }

abbrev alone : EventHub Rows
alone = record { registered = λ _. []; next_order = 0 }

abbrev loop : LoopHost Rows
loop = record {
  hub = alone;
  tool_host = record {
    has_cancellation = false;
    done_first = λ _ _. work_done;
    execute = λ _ _ _ x. (finishes (error_result "unused"), x);
  };
  policy = λ _. new_policy registry;
  schemas = λ _. [];
  context = record { context_loader = none; system_prompt = λ _ _. "be brief" };
  budget = none;
  text = record {
    str_of = λ _. "";
    str_of_int = λ _. "2";
    is_zero = λ _. false;
    char_count = count;
    first_chars = λ _ s. s;
    rstrip = λ s. s;
  };
  is_cancelled = λ _. false;
  stream = λ _ _. stream_done reply ∷ [];
  after_stream = λ _ x. x;
  model_done = λ _ _. work_done;
  delivered = λ _ _. 0;
}

abbrev host : HarnessHost verbatim Rows
host = record {
  loop = loop;
  store = table;
  fresh_id = λ _. "r1";
  resolve_path = λ p _. returned p;
  is_free = λ _ _. true;
  sandbox_error = λ _ _. none;
  approximate = record { count_text = λ _. 0; dump_calls = λ _. ""; dump_schema = λ _. "" };
  project_config =
      λ _. returned record { context_window = 100; output_reserve = 10; safety_margin = 5 };
}

abbrev plain : ForegroundHost verbatim Rows
plain = record {
  harness = host;
  cwd = λ _. "/w";
  max_model_calls = λ _ _. returned 2;
  new_cancellation = λ x. x;
  request_cancel = λ x. x;
}

abbrev session : Session Rows
session = record {
  foreground = record {
    interactive = false;
    run_id = none;
    busy = false;
    pending_approval = none;
    has_cancellation = false;
  };
  world = record { events = []; outside = [] };
}

foreground-IsIdle_example :
    ((task : String) (workspace : Option FilePath) (skill : Option String) (skills : List String)
      → LeavesIdle (start_new plain 3 task workspace skill skills session))
    × ((token : String) (prompt : Option String) (extra skills : Option (List String))
        → LeavesIdle (continue_with plain 3 token prompt extra skills session))
    × ((token : String) (verdict : ApprovalVerdict)
        → LeavesIdle (respond_approval plain 3 token verdict session))
    × ((token : String) (verdicts : Dict ApprovalVerdict)
        → LeavesIdle (respond_approvals plain 3 token verdicts session))
foreground-IsIdle_example = foreground-IsIdle plain 3 session (refl, refl)

limits :
    (path : FilePath) (n : ℕ) → ◌≡◌ {A = Attempt ℕ} (returned 2) (returned n) → (0 < n) × (n < 3)
limits path n e = subst (λ m. (0 < m) × (m < 3)) (eq_of_returned-eq e) (omega arith, omega arith)

none_stored :
    (id : String) (t : RunState) → load_state verbatim [] id ≡ ok t → IsTranscript t.messages
unfolding load_state find_row decoded
none_stored id t e = absurd (not_ok e)

abbrev quiet_plain : ForegroundHost verbatim Rows
quiet_plain = attached plain alone (λ t. tt) (λ _ _ _ _ _ x h. h) (λ _ _ _ x h. h)

abbrev FromTask : String → Option String → List String → RunState → Type 0
FromTask = TaskFrom plain alone (λ t. tt) (λ _ _ _ _ _ x h. h) (λ _ _ _ x h. h) session

abbrev FromToken : String → (Bool → RunState → RunState) → RunState → Type 0
FromToken = TokenFrom plain alone (λ t. tt) (λ _ _ _ _ _ x h. h) (λ _ _ _ x h. h) session

foreground-IsRecorded_example :
    ((task : String) (workspace : Option FilePath) (skill : Option String) (skills : List String)
      → EndsRecorded table
          (FromTask task skill skills)
          (start_new quiet_plain 3 task workspace skill skills session))
    × ((token : String) (prompt : Option String) (extra skills : Option (List String))
        → EndsRecorded table
            (FromToken token (λ awaiting u. repaired awaiting prompt (reskilled extra skills u)))
            (continue_with quiet_plain 3 token prompt extra skills session))
    × ((token : String) (verdict : ApprovalVerdict)
        → EndsRecorded table
            (FromToken token (λ _ u. u))
            (respond_approval quiet_plain 3 token verdict session))
    × ((token : String) (verdicts : Dict ApprovalVerdict)
        → EndsRecorded table
            (FromToken token (λ _ u. u))
            (respond_approvals quiet_plain 3 token verdicts session))
foreground-IsRecorded_example =
    foreground-IsRecorded plain alone (λ t. tt) (λ _ _ _ _ _ x h. h) (λ _ _ _ x h. h) 3 session refl
      limits none_stored

-- A Handler in which the cancellation of the task arrives, as the Run is about to start.
abbrev interrupting : EventHub Rows
interrupting = record {
  registered =
      λ _. record { priority = 0; order = 0; handler = λ _ x. (raised task_cancelled, x) } ∷ [];
  next_order = 1;
}

abbrev cancelled_host : ForegroundHost verbatim Rows
cancelled_host = record plain {
  harness = record host { loop = record loop { hub = interrupting } };
}

abbrev left_row : Row verbatim
left_row = record {
  stored = record {
    run_id = "r1";
    workspace = "/w";
    status = running;
    created_at = 7;
    updated_at = 7;
    final_message = none;
  };
  state_json = to_snapshot (new_state "r1" "/w");
}

-- A Run that is RUNNING in the store, as a process leaves it that was killed.
abbrev stale_session : Session Rows
stale_session = record session { world = record { events = []; outside = left_row ∷ [] } }

abbrev stale_state : RunState
stale_state = new_state "r1" "/w"

abbrev left_world : World Rows
left_world = record {
  events = run_before_resume "r1" none running "/w" [] foreground none ∷ [];
  outside = left_row ∷ [];
}

abbrev resuming : StoredRun → ℕ → World Rows → Option (Attempt RunResult × World Rows)
resuming stored limit w = resume cancelled_host.harness 3 limit stored.run_id none none none w

cancelled_resume :
    resuming left_row.stored 2 stale_session.world ≡ some (raised task_cancelled, left_world)
unfolding resume prepare_resumed resume_claimed require_run refuse_if advance_prepared find_row
    load_state decoded broadcast deliver sorted insert go_on proceed to_snapshot get_run stored_of
    load_run_state seal repaired make_sandbox from_snapshot
    milky_frog_lite.Transcript.unmatched_tool_calls
cancelled_resume = refl

go_on_with-IsInterrupted_example :
    (t : Session Rows) × (go_on_with cancelled_host
        (returned left_row.stored)
        resuming
        stale_session
      ≡ some (raised task_cancelled, t))
    × IsInterrupted cancelled_host left_row.stored stale_state t
unfolding find_row load_state decoded load_run_state to_snapshot
go_on_with-IsInterrupted_example =
    go_on_with-IsInterrupted cancelled_host (λ x. refl) left_row.stored resuming stale_session 2
      left_world left_row stale_state refl cancelled_resume refl refl refl refl refl tt
