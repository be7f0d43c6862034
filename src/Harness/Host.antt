-- ===== src/Harness/Host.antt =====
-- harness/harness.py: what an AgentHarness is given, and the states that it prepares.
use milky_frog_lite.Prelude.{
  Bool, true, false, String, List, [], ◌∷◌, Option, none, some, fstring, str_eq, if◌then◌else◌,
}
use milky_frog_lite.Domain.Run.{
  RunState, new_state, RunRequest, RunStatus, waiting_for_approval, FilePath,
}
use milky_frog_lite.Transcript.{start_run, append_user_message, with_run_skills, seal}
use milky_frog_lite.Tokens.{TokenCounter}
use milky_frog_lite.Budget.{BudgetConfig}
use milky_frog_lite.Snapshot.{Codec}
use milky_frog_lite.Checkpoint.{
  StoreError, integrity_error, lookup_error, value_error, validation_error, changed_error,
}
use milky_frog_lite.Events.{Raised, error, Attempt}
use milky_frog_lite.Events.Loop.Model.{LoopHost}
use milky_frog_lite.Handlers.{Store}

-- The collaborators of `AgentHarness`, and what it asks of the host: a fresh id, the resolution of a
-- path, whether the lock of a Run is free, whether a Sandbox can be built, and the configuration of
-- a Workspace.
pub record HarnessHost (codec : Codec) (X : Type 0) : Type 0 where
  pub loop : LoopHost X
  pub store : Store codec X
  pub fresh_id : X → String
  pub resolve_path : FilePath → X → Attempt FilePath
  pub is_free : String → X → Bool
  pub sandbox_error : FilePath → X → Option Raised
  pub approximate : TokenCounter
  pub project_config : FilePath → Attempt BudgetConfig

abbrev pub resume_error : String → Raised
resume_error message = error "ResumeError" message none

-- The exceptions of the store.
abbrev pub store_raised : StoreError → Raised
store_raised integrity_error = error "IntegrityError" "UNIQUE constraint failed: runs.run_id" none
store_raised (lookup_error key) = error "LookupError" key none
store_raised (value_error token) = error "ValueError" token none
store_raised validation_error = error "ValidationError" "" none
store_raised (changed_error run_id) =
    error "RuntimeError"
      (fstring ("Run " ∷ run_id ∷ " changed while resume was being prepared" ∷ [])) none

abbrev pub is_awaiting : RunStatus → Bool
is_awaiting waiting_for_approval = true
is_awaiting _ = false

-- `(run_request.skill_content,) if run_request.skill_content else ()`
abbrev pub extra_of : Option String → List String
extra_of none = []
extra_of (some content) = if str_eq content "" then [] else content ∷ []

unfoldable pub seeded : String → FilePath → RunRequest → RunState
seeded run_id workspace request =
    start_run
      (record (new_state run_id workspace) {
        run_extra = extra_of request.skill_content;
        selected_skills = request.selected_skills;
        run_kind = request.run_kind;
        parent_run_id = request.parent_run_id;
      })
      request.prompt

-- `with_run_skills`, if both are given
abbrev pub reskilled : Option (List String) → Option (List String) → RunState → RunState
reskilled (some extra) (some skills) state = with_run_skills state extra skills
reskilled _ _ state = state

abbrev pub prompted : Option String → RunState → RunState
prompted none state = state
prompted (some prompt) state = append_user_message state prompt

-- `if not waiting_approval`
unfoldable pub repaired : Bool → Option String → RunState → RunState
repaired true prompt state = state
repaired false prompt state = prompted prompt (seal state).0

-- `(run_extra is None) != (selected_skills is None)`
abbrev pub is_mismatch : Option (List String) → Option (List String) → Bool
is_mismatch none none = false
is_mismatch none (some _) = true
is_mismatch (some _) none = true
is_mismatch (some _) (some _) = false
