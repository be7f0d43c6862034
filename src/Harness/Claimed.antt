-- ===== src/Harness/Claimed.antt =====
-- The entry points that go on with a Run, under its claim: what they hand to the loop.
use milky_frog_lite.Events.Loop.Growth.{GrowsInto}
use milky_frog_lite.Approvals.{Applied}
use milky_frog_lite.Harness.Resumed.{apply_approvals-Begun}
use milky_frog_lite.Handlers.Broadcasts.{broadcast-HasRow}
use milky_frog_lite.Transcript.Roles.{IsTranscript}
use milky_frog_lite.Harness.Entry.{
  IsReady, load_state-IsOf, prepare_resume-HasRow, repaired-IsReady, reskilled-IsReady, attempt_ok,
}
use milky_frog_lite.Domain.Approval.{ApprovalVerdict}
use milky_frog_lite.Events.{
  World, returned, run_before_resume, proceed, Effect, Raised, give, Attempt,
}
use milky_frog_lite.Checkpoint.{
  StoredRun, Row, find_row, load_state, prepare_resume, get_run, stored_of,
}
use milky_frog_lite.Harness.Durable.{
  with_checkpoints, Begun, proceed-Begun, make_sandbox_keeps, load_budget_keeps,
}
use milky_frog_lite.Domain.Run.{ModelRequest, FilePath, RunState}
use milky_frog_lite.Domain.Message.{ToolCall}
use milky_frog_lite.Registry.{Tool}
use milky_frog_lite.Prelude.{
  String, Option, Dict, ◌≡◌, some, ok, subst₂, sym, List, Bool, [], false, none, refl, true, not,
  fstring, ◌∷◌,
}
use milky_frog_lite.Handlers.Company.{IsQuietHub, HasRow}
use milky_frog_lite.Snapshot.{Codec}
use milky_frog_lite.Events.Hub.{EventHub, broadcast}
use milky_frog_lite.Harness.{
  verdicts_claimed, verdict_claimed, writing, attempt, advance_prepared, Codec, String, ToolCall,
  World, StoredRun, Option, Dict, ok, some, ApprovalVerdict, make_sandbox, require_run,
  resume_claimed, load_budget, List, refuse_if, known, [], Bool, Applied, false, require_awaiting,
  not, fstring, repaired, reskilled,
}
use milky_frog_lite.Harness.Host.{HarnessHost, is_awaiting, resume_error, repaired, reskilled}

module _ {X : Type 0} {codec : Codec} (host : HarnessHost codec X) (others : EventHub X)
    (quiet : IsQuietHub host.store others)
    (on_execute : (id workspace : String) (tool : Tool) (prefix : String) (call : ToolCall) (x : X)
      → HasRow host.store id workspace x
      → HasRow host.store id workspace (host.loop.tool_host.execute tool prefix call x).1)
    (on_stream : (id workspace : String) (request : ModelRequest) (x : X)
      → HasRow host.store id workspace x
      → HasRow host.store id workspace (host.loop.after_stream request x))
    (Grown : RunState → Type 0) where
  abbrev pub harness : HarnessHost codec X
  harness = with_checkpoints host others quiet

  module _ (id : String) (workspace : FilePath) where
    advance_prepared-Begun :
        (stored : StoredRun) (s : RunState) (prompt : Option String)
        → (verdicts : Dict ApprovalVerdict) (w : World X) → IsReady id workspace s
        → GrowsInto Grown s
        → HasRow host.store id workspace w.outside
        → Begun host.store Grown
            (advance_prepared harness id stored s prompt verdicts w).0
            (advance_prepared harness id stored s prompt verdicts w).1
    unfolding advance_prepared
    advance_prepared-Begun stored s prompt verdicts w r grows h =
        proceed-Begun host.store Grown _ _ _ (λ _ _.
          let u = (make_sandbox harness stored.workspace w).1 in
          let i : HasRow host.store id workspace u.outside =
            rw (make_sandbox_keeps harness stored.workspace w) h in
          proceed-Begun host.store Grown _ _ _ (λ _ _.
            let event =
              run_before_resume id prompt stored.status s.workspace s.selected_skills s.run_kind
                s.parent_run_id in
            let v = (broadcast harness.loop.hub event u).1 in
            let j = broadcast-HasRow host.store id workspace others quiet event u i in
            proceed-Begun host.store Grown _ _ _ (λ _ _.
              let v' = (load_budget harness stored.workspace v).1 in
              let j' : HasRow host.store id workspace v'.outside =
                rw (load_budget_keeps harness stored.workspace v) j in
              proceed-Begun host.store Grown _ _ _ (λ row e.
                let k = prepare_resume-HasRow host id workspace stored.updated_at s v' row j' e in
                let z =
                  (writing host (λ rows now. prepare_resume codec rows now id stored.updated_at s)
                    v').1 in
                apply_approvals-Begun host others quiet on_execute on_stream Grown id s grows
                  r.transcript verdicts z
                  (subst₂ (λ a b. HasRow host.store a b z.outside) (sym r.is_of.same_run)
                    (sym r.is_of.same_workspace) k)))))

  module _ (id : String) where
    -- What is loaded of the Run is ready.
    abbrev pub IsWell : World X → Type 0
    IsWell w =
        (s : RunState)
        → load_state codec (host.store.rows_of w.outside) id ≡ ok s
        → IsTranscript s.messages

    -- The stored state, as it is prepared, grows as it should.
    abbrev pub GrowsLoaded : World X → (Bool → RunState → RunState) → Type 0
    GrowsLoaded w prepare =
        (awaiting : Bool) (s : RunState)
        → load_state codec (host.store.rows_of w.outside) id ≡ ok s
        → GrowsInto Grown (prepare awaiting s)

    loaded_ok :
        (w : World X) (s : RunState)
        → attempt harness (load_state codec (host.store.rows_of w.outside) id) ≡ returned s
        → load_state codec (host.store.rows_of w.outside) id ≡ ok s
    loaded_ok w s h = attempt_ok harness (load_state codec (host.store.rows_of w.outside) id) s h

    loaded-IsReady :
        (w : World X) (r : Row codec) (s : RunState)
        → find_row codec (host.store.rows_of w.outside) id ≡ some r
        → IsWell w
        → attempt harness (load_state codec (host.store.rows_of w.outside) id) ≡ returned s
        → IsReady id r.stored.workspace s
    loaded-IsReady w r s found well h =
        let (is, e) = load_state-IsOf harness id (host.store.rows_of w.outside) r s found h in
        record { is_of = is; transcript = well s e }

    pub refused-Begun :
        (b : Bool) (e : Raised) (w : World X) (f : Bool → Effect X Applied)
        → Begun host.store Grown (f false w).0 (f false w).1
        → Begun host.store Grown
            (proceed (refuse_if harness b e w).0 (refuse_if harness b e w).1 f).0
            (proceed (refuse_if harness b e w).0 (refuse_if harness b e w).1 f).1
    unfolding proceed refuse_if
    refused-Begun true e w f h = tt
    refused-Begun false e w f h = h

    known-Begun :
        (o : Option (Row codec)) (w : World X) (f : StoredRun → Effect X Applied)
        → ((r : Row codec) → o ≡ some r → Begun host.store Grown (f r.stored w).0 (f r.stored w).1)
        → Begun host.store Grown
            (proceed (known harness id (stored_of codec o)) w f).0
            (proceed (known harness id (stored_of codec o)) w f).1
    unfolding proceed known stored_of
    known-Begun none w f h = tt
    known-Begun (some r) w f h = h r refl

    required-Begun :
        (w : World X) (f : StoredRun → Effect X Applied)
        → ((r : Row codec)
            → find_row codec (host.store.rows_of w.outside) id ≡ some r
            → Begun host.store Grown (f r.stored w).0 (f r.stored w).1)
        → Begun host.store Grown
            (proceed (require_run harness id w).0 (require_run harness id w).1 f).0
            (proceed (require_run harness id w).0 (require_run harness id w).1 f).1
    unfolding require_run get_run
    required-Begun w f h = known-Begun (find_row codec (host.store.rows_of w.outside) id) w f h

    pub resume_claimed-Begun :
        (prompt : Option String) (extra skills : Option (List String)) (w : World X)
        → IsWell w
        → GrowsLoaded w (λ awaiting s. repaired awaiting prompt (reskilled extra skills s))
        → Begun host.store Grown
            (resume_claimed harness id prompt extra skills w).0
            (resume_claimed harness id prompt extra skills w).1
    unfolding resume_claimed
    resume_claimed-Begun prompt extra skills w well grows = required-Begun w _ (λ r found.
        refused-Begun _ _ w _ (
          proceed-Begun host.store Grown _ _ _ (λ s e.
            let ready = loaded-IsReady w r s found well e in
            advance_prepared-Begun id r.stored.workspace r.stored _ prompt [] w
              (repaired-IsReady id r.stored.workspace _ prompt _
                (reskilled-IsReady id r.stored.workspace extra skills s ready))
              (grows _ s (loaded_ok w s e))
              record { row = r; found = found; in_workspace = refl })))

    abbrev awaiting_of : Option (Row codec) → World X → Attempt StoredRun × World X
    awaiting_of o w = proceed (known harness id (stored_of codec o)) w (λ stored v.
        proceed
          (refuse_if harness (not (is_awaiting stored.status))
            (resume_error (fstring ("Run " ∷ id ∷ " is not waiting for tool approval" ∷ []))) v).0
          (refuse_if harness (not (is_awaiting stored.status))
            (resume_error (fstring ("Run " ∷ id ∷ " is not waiting for tool approval" ∷ []))) v).1
          (λ _. give stored))

    given-Begun :
        (b : Bool) (e : Raised) (stored : StoredRun) (w : World X)
        → (f : StoredRun → Effect X Applied) → Begun host.store Grown (f stored w).0 (f stored w).1
        → Begun host.store Grown
            (proceed
              (proceed (refuse_if harness b e w).0 (refuse_if harness b e w).1 (λ _. give stored)).0
              (proceed (refuse_if harness b e w).0 (refuse_if harness b e w).1 (λ _. give stored)).1
              f).0
            (proceed
              (proceed (refuse_if harness b e w).0 (refuse_if harness b e w).1 (λ _. give stored)).0
              (proceed (refuse_if harness b e w).0 (refuse_if harness b e w).1 (λ _. give stored)).1
              f).1
    unfolding proceed refuse_if
    given-Begun true e stored w f h = tt
    given-Begun false e stored w f h = h

    awaited-Begun :
        (o : Option (Row codec)) (w : World X) (f : StoredRun → Effect X Applied)
        → ((r : Row codec) → o ≡ some r → Begun host.store Grown (f r.stored w).0 (f r.stored w).1)
        → Begun host.store Grown
            (proceed (awaiting_of o w).0 (awaiting_of o w).1 f).0
            (proceed (awaiting_of o w).0 (awaiting_of o w).1 f).1
    unfolding proceed known stored_of
    awaited-Begun none w f h = tt
    awaited-Begun (some r) w f h = given-Begun _ _ r.stored w f (h r refl)

    awaiting-Begun :
        (w : World X) (f : StoredRun → Effect X Applied)
        → ((r : Row codec)
            → find_row codec (host.store.rows_of w.outside) id ≡ some r
            → Begun host.store Grown (f r.stored w).0 (f r.stored w).1)
        → Begun host.store Grown
            (proceed (require_awaiting harness id w).0 (require_awaiting harness id w).1 f).0
            (proceed (require_awaiting harness id w).0 (require_awaiting harness id w).1 f).1
    unfolding require_awaiting require_run get_run
    awaiting-Begun w f h = awaited-Begun (find_row codec (host.store.rows_of w.outside) id) w f h

    pub verdicts_claimed-Begun :
        (verdicts : Dict ApprovalVerdict) (w : World X)
        → IsWell w
        → GrowsLoaded w (λ _ s. s)
        → Begun host.store Grown
            (verdicts_claimed harness id verdicts w).0
            (verdicts_claimed harness id verdicts w).1
    unfolding verdicts_claimed
    verdicts_claimed-Begun verdicts w well grows = awaiting-Begun w _ (λ r found.
        proceed-Begun host.store Grown _ _ _ (λ s e.
          advance_prepared-Begun id r.stored.workspace r.stored s none verdicts w
            (loaded-IsReady w r s found well e) (grows true s (loaded_ok w s e))
            record { row = r; found = found; in_workspace = refl }))

    pub verdict_claimed-Begun :
        (verdict : ApprovalVerdict) (w : World X)
        → IsWell w
        → GrowsLoaded w (λ _ s. s)
        → Begun host.store Grown
            (verdict_claimed harness id verdict w).0
            (verdict_claimed harness id verdict w).1
    unfolding verdict_claimed
    verdict_claimed-Begun verdict w well grows = awaiting-Begun w _ (λ r found.
        proceed-Begun host.store Grown _ _ _ (λ s e. proceed-Begun host.store Grown _ _ _ (λ call _.
          advance_prepared-Begun id r.stored.workspace r.stored s none ((call.id, verdict) ∷ []) w
            (loaded-IsReady w r s found well e) (grows true s (loaded_ok w s e))
            record { row = r; found = found; in_workspace = refl })))
