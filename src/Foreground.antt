-- ===== src/Foreground.antt =====
-- core/runtime/foreground.py: the Run in the foreground of a session, with its busy flag, its
-- cancellation and its id. The RunCancellation itself is a part of the outside world.
pub mod Idle
pub mod Recorded
pub mod Cancelled
mod Examples
use milky_frog_lite.Domain.Usage.{no_run_usage}
use milky_frog_lite.Checkpoint.Facade.{seal_interrupt}
use milky_frog_lite.Domain.Approval.{ApprovalVerdict}
use milky_frog_lite.Snapshot.{Codec}
use milky_frog_lite.Events.{
  World, Attempt, Raised, raised, returned, task_cancelled, error, tool_run_cancelled,
}
use milky_frog_lite.Prelude.{
  Bool, Option, ℕ, false, String, if◌then◌else◌, none, List, Result, some, fstring, true, Dict, ◌∷◌,
  ok, str_eq, err, [],
}
use milky_frog_lite.Domain.Run.{
  RunResult, RunRequest, waiting_for_approval, cancelled, FilePath, RunKind,
}
use milky_frog_lite.Checkpoint.{
  StoreError, lookup_error, value_error, resolve_run_id, get_run, StoredRun, Row,
}
use milky_frog_lite.Harness.{
  run, resume, respond_approval as harness_respond_approval,
  respond_approvals as harness_respond_approvals,
}
use milky_frog_lite.Harness.Host.{HarnessHost, resume_error, store_raised, is_awaiting}

pub record ForegroundRun : Type 0 where
  pub interactive : Bool
  pub run_id : Option String
  pub busy : Bool
  pub pending_approval : Option String
  pub has_cancellation : Bool

pub record Session (X : Type 0) : Type 0 where
  pub foreground : ForegroundRun
  pub world : World X

-- The Harness, the current directory, `load_project_config(workspace).max_model_calls`, and what
-- becomes of the outside world by a new RunCancellation and by its cancel.
pub record ForegroundHost (codec : Codec) (X : Type 0) : Type 0 where
  pub harness : HarnessHost codec X
  pub cwd : X → FilePath
  pub max_model_calls : FilePath → X → Attempt ℕ
  pub new_cancellation : X → X
  pub request_cancel : X → X

unfoldable pub new_foreground : Bool → ForegroundRun
new_foreground interactive = record {
  interactive = interactive;
  run_id = none;
  busy = false;
  pending_approval = none;
  has_cancellation = false;
}

-- `RunResult(run_id or "unknown", RunStatus.CANCELLED, "cancelled", 0)`
unfoldable pub cancelled_result : Option String → RunResult
cancelled_result none = record {
  run_id = "unknown";
  status = cancelled;
  final_message = "cancelled";
  model_calls = 0;
  usage = no_run_usage;
}
cancelled_result (some id) = record {
  run_id = if str_eq id "" then "unknown" else id;
  status = cancelled;
  final_message = "cancelled";
  model_calls = 0;
  usage = no_run_usage;
}

module _ {X : Type 0} {codec : Codec} (host : ForegroundHost codec X) where
  abbrev pub outside_of : (X → X) → Session X → Session X
  outside_of f s = record s { world = record (s.world) { outside = f s.world.outside } }

  unfoldable pub cancel : Session X → Session X
  cancel s = if s.foreground.has_cancellation then outside_of host.request_cancel s else s

  sealed : Session X → Result StoreError (List (Row codec)) → Option Raised × Session X
  sealed s (ok rows) = (none, outside_of (host.harness.store.put rows) s)
  sealed s (err e) = (some (store_raised e), s)

  unfoldable pub seal_run : Option String → Session X → Option Raised × Session X
  unfolding sealed
  seal_run none s = (none, s)
  seal_run (some id) s = sealed s (
      seal_interrupt codec (host.harness.store.rows_of s.world.outside)
        (host.harness.store.now s.world.outside) id "interrupted")

  -- What it raises, if anything, and what it leaves.
  unfoldable pub shutdown : Session X → Option Raised × Session X
  unfolding cancel seal_run
  shutdown s = seal_run (cancel s).foreground.run_id (cancel s)

  -- the `finally`
  abbrev pub idle : Session X → Session X
  idle s = record s {
    foreground = record (s.foreground) { busy = false; has_cancellation = false };
  }

  unfoldable pub after_cancel : Option Raised × Session X → Attempt RunResult × Session X
  after_cancel (none, s) = (raised task_cancelled, idle s)
  after_cancel (some e, s) = (raised e, idle s)

  -- the `try`, once the Harness has come to an end
  unfoldable pub conclude_run :
      ForegroundRun → Attempt RunResult × World X → Attempt RunResult × Session X
  unfolding after_cancel shutdown
  conclude_run f (returned r, w) =
      (returned r, idle (record { foreground = record f { run_id = some r.run_id }; world = w }))
  conclude_run f (raised task_cancelled, w) =
      after_cancel (shutdown (record { foreground = f; world = w }))
  conclude_run f (raised tool_run_cancelled, w) =
      (raised tool_run_cancelled, idle (record { foreground = f; world = w }))
  conclude_run f (raised (error name message upstream), w) =
      (raised (error name message upstream), idle (record { foreground = f; world = w }))

  unfoldable pub concluded :
      ForegroundRun → Option (Attempt RunResult × World X) → Option (Attempt RunResult × Session X)
  unfolding conclude_run
  concluded f none = none
  concluded f (some o) = some (conclude_run f o)

  -- `self.busy = True; self._cancellation = RunCancellation()`
  abbrev pub busied : Option String → ForegroundRun → ForegroundRun
  busied id f = record f { run_id = id; busy = true; has_cancellation = true }

  abbrev pub cancellable : World X → World X
  cancellable w = record w { outside = host.new_cancellation w.outside }

  abbrev pub limit_of : ForegroundRun → ℕ → ℕ
  limit_of f calls = if f.interactive then 0 else calls

  -- The configuration is loaded, and the Harness does its part.
  unfoldable pub foreground :
      Option String
      → Attempt ℕ
      → (ℕ → World X → Option (Attempt RunResult × World X))
      → Session X
      → Option (Attempt RunResult × Session X)
  unfolding concluded
  foreground id (raised e) part s = some (raised e, s)
  foreground id (returned calls) part s =
      concluded (busied id s.foreground) (part (limit_of s.foreground calls) (cancellable s.world))

  -- `workspace or Path.cwd()`
  abbrev pub workspace_or : Option FilePath → X → FilePath
  workspace_or none x = host.cwd x
  workspace_or (some workspace) x = workspace

  abbrev pub request_for : String → FilePath → ℕ → Option String → List String → RunRequest
  request_for task workspace limit skill_content selected_skills = record {
    prompt = task;
    workspace = workspace;
    max_model_calls = limit;
    skill_content = skill_content;
    selected_skills = selected_skills;
    run_kind = RunKind.foreground;
    parent_run_id = none;
  }

  started :
      ℕ
      → String
      → Option String
      → List String
      → Attempt FilePath
      → Session X
      → Option (Attempt RunResult × Session X)
  unfolding foreground run
  started fuel task skill_content selected_skills (raised e) s = some (raised e, s)
  started fuel task skill_content selected_skills (returned workspace) s =
      foreground s.foreground.run_id (host.max_model_calls workspace s.world.outside)
        (λ limit w.
          run host.harness fuel (request_for task workspace limit skill_content selected_skills) w)
        s

  unfoldable pub start_new :
      ℕ
      → String
      → Option FilePath
      → Option String
      → List String
      → Session X
      → Option (Attempt RunResult × Session X)
  unfolding started
  start_new fuel task workspace skill_content selected_skills s =
      started fuel task skill_content selected_skills
        (host.harness.resolve_path (workspace_or workspace s.world.outside) s.world.outside) s

  abbrev pub unknown_run : String → Raised
  unknown_run token = resume_error (fstring ("unknown Run: " ∷ token ∷ []))

  stored_or : String → Option StoredRun → Attempt StoredRun
  stored_or id none = raised (unknown_run id)
  stored_or id (some stored) = returned stored

  resolved : List (Row codec) → String → Result StoreError String → Attempt StoredRun
  unfolding stored_or
  resolved rows token (ok id) = stored_or id (get_run codec rows id)
  resolved rows token (err (lookup_error key)) = raised (unknown_run token)
  resolved rows token (err (value_error text)) =
      raised (resume_error (fstring ("ambiguous Run prefix: " ∷ token ∷ [])))
  resolved rows token (err e) = raised (store_raised e)

  -- `_resolve_stored_run`
  unfoldable pub resolve_stored_run : List (Row codec) → String → Attempt StoredRun
  unfolding resolved
  resolve_stored_run rows token = resolved rows token (resolve_run_id codec rows token)

  unfoldable pub go_on_with :
      Attempt StoredRun
      → (StoredRun → ℕ → World X → Option (Attempt RunResult × World X))
      → Session X
      → Option (Attempt RunResult × Session X)
  unfolding foreground
  go_on_with (raised e) part s = some (raised e, s)
  go_on_with (returned stored) part s =
      foreground (some stored.run_id) (host.max_model_calls stored.workspace s.world.outside)
        (part stored) s

  abbrev pub stored_for : String → Session X → Attempt StoredRun
  stored_for token s = resolve_stored_run (host.harness.store.rows_of s.world.outside) token

  unfoldable pub continue_with :
      ℕ
      → String
      → Option String
      → Option (List String)
      → Option (List String)
      → Session X
      → Option (Attempt RunResult × Session X)
  unfolding go_on_with resolve_stored_run resume
  continue_with fuel token prompt run_extra selected_skills s =
      go_on_with (stored_for token s)
        (λ stored limit w.
          resume host.harness fuel limit stored.run_id prompt run_extra selected_skills w)
        s

  must_wait : Attempt StoredRun → Attempt StoredRun
  must_wait (raised e) = raised e
  must_wait (returned stored) =
      if is_awaiting stored.status
      then returned stored
      else raised (
          resume_error
            (fstring ("Run " ∷ stored.run_id ∷ " is not waiting for tool approval" ∷ [])))

  unfoldable pub respond_approval :
      ℕ → String → ApprovalVerdict → Session X → Option (Attempt RunResult × Session X)
  unfolding go_on_with resolve_stored_run must_wait harness_respond_approval
  respond_approval fuel token verdict s =
      go_on_with (must_wait (stored_for token s))
        (λ stored limit w. harness_respond_approval host.harness fuel limit stored.run_id verdict w)
        s

  unfoldable pub respond_approvals :
      ℕ → String → Dict ApprovalVerdict → Session X → Option (Attempt RunResult × Session X)
  unfolding go_on_with resolve_stored_run must_wait harness_respond_approvals
  respond_approvals fuel token verdicts s =
      go_on_with (must_wait (stored_for token s))
        (λ stored limit w.
          harness_respond_approvals host.harness fuel limit stored.run_id verdicts w)
        s
