-- ===== src/Harness.antt =====
-- harness/harness.py: how a Run is started, resumed, and released from an approval. Each entry
-- point prepares a state under the claim of the Run, or ends it, and hands the state to the loop.
pub mod Host
pub mod Durable
pub mod Resumed
pub mod Entry
pub mod Claimed
pub mod Saved
mod Examples
use milky_frog_lite.Harness.Host.{
  HarnessHost, resume_error, store_raised, is_awaiting, extra_of, seeded, reskilled, prompted,
  repaired, is_mismatch,
}
use milky_frog_lite.Prelude.{
  ℕ, Bool, true, false, not, String, List, [], ◌∷◌, Option, none, some, Dict, Result, ok, err,
  fstring, str_eq, if◌then◌else◌,
}
use milky_frog_lite.Domain.Message.{ToolCall}
use milky_frog_lite.Domain.Approval.{ApprovalVerdict}
use milky_frog_lite.Domain.Run.{
  RunState, new_state, RunRequest, RunResult, RunStatus, waiting_for_approval, FilePath,
}
use milky_frog_lite.Transcript.{
  start_run, append_user_message, with_run_skills, seal, unmatched_tool_calls,
}
use milky_frog_lite.Tokens.{TokenCounter}
use milky_frog_lite.Budget.{BudgetConfig, TokenBudget, init_for_workspace}
use milky_frog_lite.Snapshot.{Codec}
use milky_frog_lite.Checkpoint.{
  Row, StoredRun, StoreError, integrity_error, lookup_error, value_error, validation_error,
  changed_error, create_run, get_run, load_state, prepare_resume,
}
use milky_frog_lite.Events.{
  Raised, error, Attempt, returned, raised, World, Effect, ◌>>=◌, give, run_before_start,
  run_started, run_before_resume,
}
use milky_frog_lite.Events.Hub.{broadcast}
use milky_frog_lite.Events.Loop.{advance}
use milky_frog_lite.Events.Loop.Model.{LoopHost}
use milky_frog_lite.Handlers.{Store}
use milky_frog_lite.Approvals.{Applied, prepared, halted, apply_approvals}

module _ {X : Type 0} {codec : Codec} (host : HarnessHost codec X) where
  -- A budget whose configuration cannot be loaded stays as it is, and `load_budget` raises.
  abbrev pub initialised : TokenBudget → Attempt BudgetConfig → TokenBudget
  initialised budget (returned config) = init_for_workspace host.approximate config budget
  initialised budget (raised e) = budget

  -- The loop, once `init_for_workspace` has loaded the budget of the Workspace.
  abbrev pub budgeted : Option TokenBudget → FilePath → Option TokenBudget
  budgeted none workspace = none
  budgeted (some budget) workspace = some (initialised budget (host.project_config workspace))

  abbrev pub loop_for : FilePath → LoopHost X
  loop_for workspace = record (host.loop) { budget = budgeted host.loop.budget workspace }

  abbrev pub attempt : {A : Type 0} → Result StoreError A → Attempt A
  attempt (ok a) = returned a
  attempt (err e) = raised (store_raised e)

  -- A statement that reads.
  abbrev pub reading : {A : Type 0} → (List (Row codec) → Result StoreError A) → Effect X A
  reading f w = (attempt (f (host.store.rows_of w.outside)), w)

  abbrev pub written :
      Result StoreError (List (Row codec) × StoredRun) → World X → Attempt StoredRun × World X
  written (ok (rows, stored)) w =
      (returned stored, record w { outside = host.store.put rows w.outside })
  written (err e) w = (raised (store_raised e), w)

  -- A statement that writes.
  abbrev pub writing :
      (List (Row codec) → ℕ → Result StoreError (List (Row codec) × StoredRun)) → Effect X StoredRun
  writing f w = written (f (host.store.rows_of w.outside) (host.store.now w.outside)) w

  -- `with self._checkpoints.claim(run_id)`; the second argument is what a held lock raises.
  abbrev pub claiming : {A : Type 0} → String → Raised → Effect X A → Effect X A
  claiming run_id refused body w = elim (host.is_free run_id w.outside) [
    | true ↦ body w
    | false ↦ (raised refused, w)
  ]

  abbrev pub active_message : String → String
  active_message run_id = fstring ("Run " ∷ run_id ∷ " is already active" ∷ [])

  known : String → Option StoredRun → Attempt StoredRun
  known run_id none = raised (resume_error (fstring ("unknown Run: " ∷ run_id ∷ [])))
  known run_id (some stored) = returned stored

  unfoldable pub require_run : String → Effect X StoredRun
  unfolding known
  require_run run_id w = (known run_id (get_run codec (host.store.rows_of w.outside) run_id), w)

  checked : Option Raised → World X → Attempt FilePath × World X
  checked none w = (returned "", w)
  checked (some e) w = (raised e, w)

  -- `_make_sandbox`
  unfoldable pub make_sandbox : FilePath → Effect X FilePath
  unfolding checked
  make_sandbox workspace w = checked (host.sandbox_error workspace w.outside) w

  error_of : Attempt BudgetConfig → Option Raised
  error_of (returned _) = none
  error_of (raised e) = some e

  config_error : Option TokenBudget → FilePath → Option Raised
  unfolding error_of
  config_error none workspace = none
  config_error (some _) workspace = error_of (host.project_config workspace)

  -- `if self._budget is not None: self._budget.init_for_workspace(workspace)`, which may raise
  unfoldable pub load_budget : FilePath → Effect X FilePath
  unfolding checked config_error
  load_budget workspace w = checked (config_error host.loop.budget workspace) w

  unfoldable pub advance_prepared :
      String → StoredRun → RunState → Option String → Dict ApprovalVerdict → Effect X Applied
  unfolding make_sandbox load_budget
  advance_prepared run_id stored state prompt verdicts = do
    _ ← make_sandbox stored.workspace
    _ ← broadcast host.loop.hub (
        run_before_resume run_id prompt stored.status state.workspace state.selected_skills
          state.run_kind state.parent_run_id)
    _ ← load_budget stored.workspace
    _ ← writing (λ rows now. prepare_resume codec rows now run_id stored.updated_at state)
    apply_approvals host.loop state run_id verdicts

  unfoldable pub refuse_if : Bool → Raised → Effect X Bool
  refuse_if true e w = (raised e, w)
  refuse_if false e w = (returned false, w)

  abbrev pub has_prompt : Option String → Bool
  has_prompt none = false
  has_prompt (some _) = true

  abbrev pub both : Bool → Bool → Bool
  both true b = b
  both false b = false

  unfoldable pub resume_claimed :
      String → Option String → Option (List String) → Option (List String) → Effect X Applied
  unfolding require_run refuse_if advance_prepared
  resume_claimed run_id prompt extra skills = do
    stored ← require_run run_id
    let awaiting = is_awaiting stored.status
    _ ← refuse_if (both awaiting (has_prompt prompt)) (
        resume_error (
          fstring (
            "Run " ∷ run_id ∷ " is waiting for tool approval; "
            ∷ "approve or deny the pending tool first" ∷ [])))
    state ← reading (λ rows. load_state codec rows run_id)
    advance_prepared run_id stored (repaired awaiting prompt (reskilled extra skills state)) prompt
        []

  -- `resume`, up to the loop
  unfoldable pub prepare_resumed :
      String → Option String → Option (List String) → Option (List String) → Effect X Applied
  unfolding resume_claimed refuse_if
  prepare_resumed run_id prompt extra skills = do
    _ ←
        refuse_if (is_mismatch extra skills)
          (resume_error "run_extra and selected_skills must be supplied together")
    claiming run_id (resume_error (active_message run_id))
        (resume_claimed run_id prompt extra skills)

  first_pending : List ToolCall → Attempt ToolCall
  first_pending [] = raised (error "IndexError" "tuple index out of range" none)
  first_pending (call ∷ _) = returned call

  -- the status that both responses require
  unfoldable pub require_awaiting : String → Effect X StoredRun
  unfolding require_run refuse_if
  require_awaiting run_id = do
    stored ← require_run run_id
    _ ←
        refuse_if (not (is_awaiting stored.status))
          (resume_error (fstring ("Run " ∷ run_id ∷ " is not waiting for tool approval" ∷ [])))
    give stored

  unfoldable pub verdicts_claimed : String → Dict ApprovalVerdict → Effect X Applied
  unfolding require_awaiting advance_prepared
  verdicts_claimed run_id verdicts = do
    stored ← require_awaiting run_id
    state ← reading (λ rows. load_state codec rows run_id)
    advance_prepared run_id stored state none verdicts

  -- `respond_approvals`, up to the loop
  unfoldable pub prepare_verdicts : String → Dict ApprovalVerdict → Effect X Applied
  unfolding verdicts_claimed
  prepare_verdicts run_id verdicts =
      claiming run_id (resume_error (active_message run_id)) (verdicts_claimed run_id verdicts)

  -- one verdict, for the first pending call
  unfoldable pub verdict_claimed : String → ApprovalVerdict → Effect X Applied
  unfolding require_awaiting first_pending advance_prepared
  verdict_claimed run_id verdict = do
    stored ← require_awaiting run_id
    state ← reading (λ rows. load_state codec rows run_id)
    call ← λ w. (first_pending (unmatched_tool_calls state.messages), w)
    advance_prepared run_id stored state none ((call.id, verdict) ∷ [])

  -- `respond_approval`, up to the loop
  unfoldable pub prepare_verdict : String → ApprovalVerdict → Effect X Applied
  unfolding verdict_claimed
  prepare_verdict run_id verdict =
      claiming run_id (resume_error (active_message run_id)) (verdict_claimed run_id verdict)

  unfoldable pub prepare_claimed : String → FilePath → RunRequest → Effect X Applied
  unfolding seeded make_sandbox load_budget
  prepare_claimed run_id workspace request = do
    _ ← writing (λ rows now. create_run codec rows now run_id workspace)
    _ ← broadcast host.loop.hub (run_before_start run_id request.prompt workspace)
    let state = seeded run_id workspace request
    _ ← broadcast host.loop.hub (run_started run_id request.prompt state)
    _ ← load_budget workspace
    _ ← make_sandbox workspace
    give (prepared state)

  -- `run`, up to the loop; its claim is not turned into a ResumeError
  unfoldable pub prepare_run : RunRequest → Effect X Applied
  unfolding prepare_claimed
  prepare_run request w =
      let run_id = host.fresh_id w.outside in
      (do
        workspace ← λ v. (host.resolve_path request.workspace v.outside, v)
        claiming run_id (error "RunClaimError" (active_message run_id) none)
            (prepare_claimed run_id workspace request))
        w

  -- What was prepared goes to the loop, with its fuel and its limit. The Workspace of a loaded state
  -- is that of its row, for which the source loads the budget.
  unfoldable pub go_on : ℕ → ℕ → Attempt Applied × World X → Option (Attempt RunResult × World X)
  go_on fuel limit (returned (prepared state), w) =
      advance (loop_for state.workspace) fuel limit state w
  go_on fuel limit (returned (halted result), w) = some (returned result, w)
  go_on fuel limit (raised e, w) = some (raised e, w)

  unfoldable pub run : ℕ → RunRequest → World X → Option (Attempt RunResult × World X)
  unfolding go_on prepare_run
  run fuel request w = go_on fuel request.max_model_calls (prepare_run request w)

  unfoldable pub resume :
      ℕ
      → ℕ
      → String
      → Option String
      → Option (List String)
      → Option (List String)
      → World X
      → Option (Attempt RunResult × World X)
  unfolding go_on prepare_resumed
  resume fuel limit run_id prompt extra skills w =
      go_on fuel limit (prepare_resumed run_id prompt extra skills w)

  unfoldable pub respond_approvals :
      ℕ → ℕ → String → Dict ApprovalVerdict → World X → Option (Attempt RunResult × World X)
  unfolding go_on prepare_verdicts
  respond_approvals fuel limit run_id verdicts w =
      go_on fuel limit (prepare_verdicts run_id verdicts w)

  unfoldable pub respond_approval :
      ℕ → ℕ → String → ApprovalVerdict → World X → Option (Attempt RunResult × World X)
  unfolding go_on prepare_verdict
  respond_approval fuel limit run_id verdict w = go_on fuel limit (prepare_verdict run_id verdict w)
