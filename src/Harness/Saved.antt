-- ===== src/Harness/Saved.antt =====
-- The entry points that go on with a Run, up to its end.
use milky_frog_lite.Transcript.Roles.{IsTranscript}
use milky_frog_lite.Events.Loop.Growth.{Evolves}
use milky_frog_lite.Checkpoint.{load_state}
use milky_frog_lite.Handlers.Broadcasts.{IsConcluded}
use milky_frog_lite.Events.Loop.Landing.{Lands}
use milky_frog_lite.Harness.Durable.{Begun, with_checkpoints, go_on-IsSaved, claiming-Begun}
use milky_frog_lite.Harness.Claimed.{
  IsWell, refused-Begun, resume_claimed-Begun, verdict_claimed-Begun, verdicts_claimed-Begun,
  GrowsLoaded,
}
use milky_frog_lite.Events.{World, Attempt}
use milky_frog_lite.Domain.Approval.{ApprovalVerdict}
use milky_frog_lite.Domain.Run.{ModelRequest, RunResult, RunState}
use milky_frog_lite.Domain.Message.{ToolCall}
use milky_frog_lite.Registry.{Tool}
use milky_frog_lite.Prelude.{String, ℕ, Option, Dict, List, ◌<◌, ◌≡◌, some, Bool, ok}
use milky_frog_lite.Handlers.Company.{IsQuietHub, HasRow}
use milky_frog_lite.Snapshot.{Codec}
use milky_frog_lite.Events.Hub.{EventHub}
use milky_frog_lite.Harness.{
  resume_claimed, verdicts_claimed, verdict_claimed, prepare_resumed, prepare_verdicts,
  prepare_verdict, resume, respond_approvals, respond_approval, Codec, String, ToolCall,
  ApprovalVerdict, ℕ, Option, Dict, Attempt, List, World, some, Bool, repaired, load_state,
  reskilled, ok,
}
use milky_frog_lite.Harness.Host.{HarnessHost, repaired, reskilled}

module _ {X : Type 0} {codec : Codec} (host : HarnessHost codec X) (others : EventHub X)
    (quiet : IsQuietHub host.store others)
    (on_execute : (id workspace : String) (tool : Tool) (prefix : String) (call : ToolCall) (x : X)
      → HasRow host.store id workspace x
      → HasRow host.store id workspace (host.loop.tool_host.execute tool prefix call x).1)
    (on_stream : (id workspace : String) (request : ModelRequest) (x : X)
      → HasRow host.store id workspace x
      → HasRow host.store id workspace (host.loop.after_stream request x)) where
  module _ (id : String) where
    prepare_resumed-Begun :
        (Grown : RunState → Type 0) (prompt : Option String) (extra skills : Option (List String))
        (w : World X)
        → IsWell host others quiet on_execute on_stream Grown id w
        → GrowsLoaded host others quiet on_execute on_stream Grown id w
            (λ awaiting s. repaired awaiting prompt (reskilled extra skills s))
        → Begun host.store Grown
            (prepare_resumed (with_checkpoints host others quiet) id prompt extra skills w).0
            (prepare_resumed (with_checkpoints host others quiet) id prompt extra skills w).1
    unfolding prepare_resumed
    prepare_resumed-Begun Grown prompt extra skills w well grows =
        refused-Begun host others quiet on_execute on_stream Grown id _ _ w _ (
          claiming-Begun host others quiet Grown id _
            (resume_claimed (with_checkpoints host others quiet) id prompt extra skills) w
            (resume_claimed-Begun host others quiet on_execute on_stream Grown id prompt extra
              skills w well grows))

    prepare_verdicts-Begun :
        (Grown : RunState → Type 0) (verdicts : Dict ApprovalVerdict) (w : World X)
        → IsWell host others quiet on_execute on_stream Grown id w
        → GrowsLoaded host others quiet on_execute on_stream Grown id w (λ _ s. s)
        → Begun host.store Grown
            (prepare_verdicts (with_checkpoints host others quiet) id verdicts w).0
            (prepare_verdicts (with_checkpoints host others quiet) id verdicts w).1
    unfolding prepare_verdicts
    prepare_verdicts-Begun Grown verdicts w well grows =
        claiming-Begun host others quiet Grown id _
          (verdicts_claimed (with_checkpoints host others quiet) id verdicts) w
          (verdicts_claimed-Begun host others quiet on_execute on_stream Grown id verdicts w well
            grows)

    prepare_verdict-Begun :
        (Grown : RunState → Type 0) (verdict : ApprovalVerdict) (w : World X)
        → IsWell host others quiet on_execute on_stream Grown id w
        → GrowsLoaded host others quiet on_execute on_stream Grown id w (λ _ s. s)
        → Begun host.store Grown
            (prepare_verdict (with_checkpoints host others quiet) id verdict w).0
            (prepare_verdict (with_checkpoints host others quiet) id verdict w).1
    unfolding prepare_verdict
    prepare_verdict-Begun Grown verdict w well grows =
        claiming-Begun host others quiet Grown id _
          (verdict_claimed (with_checkpoints host others quiet) id verdict) w
          (verdict_claimed-Begun host others quiet on_execute on_stream Grown id verdict w well
            grows)

    -- A state that grew out of the one that was stored, once it was prepared.
    abbrev pub ResumedFrom : (Bool → RunState → RunState) → World X → RunState → Type 0
    ResumedFrom prepare w t =
        (awaiting : Bool) × (s : RunState) × (load_state codec (host.store.rows_of w.outside) id
          ≡ ok s)
        × (n : ℕ) × Evolves (prepare awaiting s) t n

    -- What returns a result has it in the store, with the state that the last signal carries.
    abbrev pub EndsSaved : (RunState → Type 0) → Option (Attempt RunResult × World X) → Type 0
    EndsSaved Grown end =
        (o : Attempt RunResult × World X) × (end ≡ some o)
        × Lands (IsConcluded host.store Grown) o.0 o.1

    -- What a resume makes of the stored state: the skills, the repair and the prompt.
    abbrev pub as_resumed :
        Option String → Option (List String) → Option (List String) → Bool → RunState → RunState
    as_resumed prompt extra skills awaiting s = repaired awaiting prompt (reskilled extra skills s)

    pub resume-IsSaved :
        (fuel limit : ℕ) (w : World X)
        → 0 < limit
        → limit < fuel
        → ((s : RunState)
            → load_state codec (host.store.rows_of w.outside) id ≡ ok s
            → IsTranscript s.messages)
        → ((prompt : Option String) (extra skills : Option (List String))
            → EndsSaved
                (ResumedFrom (as_resumed prompt extra skills) w)
                (resume (with_checkpoints host others quiet) fuel limit id prompt extra skills w))
          × ((verdicts : Dict ApprovalVerdict)
              → EndsSaved
                  (ResumedFrom (λ _ s. s) w)
                  (respond_approvals (with_checkpoints host others quiet) fuel limit id verdicts w))
          × ((verdict : ApprovalVerdict)
              → EndsSaved
                  (ResumedFrom (λ _ s. s) w)
                  (respond_approval (with_checkpoints host others quiet) fuel limit id verdict w))
    unfolding resume respond_approvals respond_approval
    resume-IsSaved fuel limit w pos enough well = (
      λ prompt extra skills.
          let Grown = ResumedFrom (as_resumed prompt extra skills) w in
          go_on-IsSaved host others quiet on_stream on_execute Grown fuel limit _ _ pos enough (
            prepare_resumed-Begun Grown prompt extra skills w well
              (λ b s e t n g. (b, s, e, n, g))),
      λ verdicts.
          let Grown = ResumedFrom (λ _ s. s) w in
          go_on-IsSaved host others quiet on_stream on_execute Grown fuel limit _ _ pos enough
            (prepare_verdicts-Begun Grown verdicts w well (λ b s e t n g. (b, s, e, n, g))),
      λ verdict.
          let Grown = ResumedFrom (λ _ s. s) w in
          go_on-IsSaved host others quiet on_stream on_execute Grown fuel limit _ _ pos enough
            (prepare_verdict-Begun Grown verdict w well (λ b s e t n g. (b, s, e, n, g))),
    )
