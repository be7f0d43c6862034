-- ===== src/Harness/Resumed.antt =====
-- What the loop is handed by the entry points that go on with a Run.
use milky_frog_lite.Events.Loop.Batch.{fold_results}
use milky_frog_lite.Events.Loop.Growth.{
  fold_results-Evolves, GrowsInto, Evolves_trans, here, Evolves-IsExtension, Evolves-IsTranscript,
}
use milky_frog_lite.Events.Loop.Folding.{eq-Returns}
use milky_frog_lite.Transcript.{unmatched_tool_calls}
use milky_frog_lite.Handlers.Broadcasts.{IsConcluded, broadcast-IsConcluded}
use milky_frog_lite.Events.Loop.Outcome.{cancels, Announces, waits_for_approval}
use milky_frog_lite.Events.Loop.Model.{LoopHost}
use milky_frog_lite.Harness.Durable.{Begun, checkpointed-IsKept, checkpointed, proceed-Begun}
use milky_frog_lite.Events.ToolStep.{execute_verdict, resolve_batch}
use milky_frog_lite.Transcript.Roles.{IsTranscript}
use milky_frog_lite.Events.Loop.Keeps.{
  IsKept, gather-keeps, proceed-keeps, execute_tool-keeps, fold_results-keeps,
}
use milky_frog_lite.Events.Loop.Landing.{Lands, finish-IsFine}
use milky_frog_lite.Domain.Message.{ToolCall}
use milky_frog_lite.Registry.{Tool, ToolRegistry}
use milky_frog_lite.Prelude.{String, List, true, false, [], Option, Dict, subst₂, sym}
use milky_frog_lite.Handlers.Company.{IsQuietHub, HasRow}
use milky_frog_lite.Domain.Run.{RunState, RunResult, ModelRequest}
use milky_frog_lite.Handlers.{Store}
use milky_frog_lite.Harness.{
  RunState, String, Bool, ToolCall, LoopHost, List, ◌∷◌, Option, Dict, unmatched_tool_calls,
}
use milky_frog_lite.Harness.Host.{HarnessHost}
use milky_frog_lite.Snapshot.{Codec}
use milky_frog_lite.Events.{proceed, Attempt, World, Event, give, returned, raised, Effect}
use milky_frog_lite.Events.Hub.{EventHub}
use milky_frog_lite.Events.Emitter.{finish, finish_cancelled, finish_approval_needed}
use milky_frog_lite.Domain.Approval.{ApprovalDecision, ApprovalVerdict}
use milky_frog_lite.Events.ToolStep.{denied_or}
use milky_frog_lite.Approvals.{
  open_calls, run_judged, halt, halt_on, after_batch, Judged, verdict_work, halted, resolve_judged,
  unless_cancelled, apply_pending, apply_approvals, Applied, decided, still_pending,
}

halted-Begun :
    {X : Type 0} {codec : Codec} (store : Store codec X) (Grown : RunState → Type 0)
    (a : Attempt RunResult) (v : World X)
    → Lands (IsConcluded store Grown) a v
    → Begun store Grown
        (proceed a v (λ r. give (halted r))).0
        (proceed a v (λ r. give (halted r))).1
unfolding proceed
halted-Begun store Grown (returned r) v (Lands.lands s) = s
halted-Begun store Grown (raised e) v Lands.escapes = tt

module _ {X : Type 0} {codec : Codec} (host : HarnessHost codec X) (others : EventHub X)
    (quiet : IsQuietHub host.store others)
    (on_execute : (id workspace : String) (tool : Tool) (prefix : String) (call : ToolCall) (x : X)
      → HasRow host.store id workspace x
      → HasRow host.store id workspace (host.loop.tool_host.execute tool prefix call x).1)
    (on_stream : (id workspace : String) (request : ModelRequest) (x : X)
      → HasRow host.store id workspace x
      → HasRow host.store id workspace (host.loop.after_stream request x))
    (Grown : RunState → Type 0) where
  abbrev loop : LoopHost X
  loop = checkpointed host.store others quiet host.loop

  kept : (id workspace : String) → IsKept loop (HasRow host.store id workspace)
  kept = checkpointed-IsKept host.store others quiet host.loop on_stream on_execute

  module _ (s : RunState) where
    abbrev HasOwnRow : X → Type 0
    HasOwnRow = HasRow host.store s.run_id s.workspace

    finish-Begun :
        (event : Event) (r : RunResult) (w : World X)
        → Announces s r event
        → GrowsInto Grown s
        → IsTranscript s.messages
        → HasOwnRow w.outside
        → Begun host.store Grown
            (halt loop (finish loop.hub event r) w).0
            (halt loop (finish loop.hub event r) w).1
    unfolding halt
    finish-Begun event r w a grows p i =
        halted-Begun host.store Grown _ _
          (finish-IsFine loop HasOwnRow (kept s.run_id s.workspace) (IsConcluded host.store Grown) s
            (λ x e v b j.
              broadcast-IsConcluded host.store Grown others quiet s x e v (grows s 0 here) b p j)
            event r w a i).0

    cancelled-Begun :
        (w : World X)
        → GrowsInto Grown s
        → IsTranscript s.messages
        → HasOwnRow w.outside
        → Begun host.store Grown
            (halt loop (finish_cancelled loop.hub s "cancelled") w).0
            (halt loop (finish_cancelled loop.hub s "cancelled") w).1
    unfolding finish_cancelled
    cancelled-Begun w grows p i = finish-Begun _ _ w (cancels "cancelled") grows p i

    halt_on-Begun :
        (still : List ToolCall) (w : World X)
        → GrowsInto Grown s
        → IsTranscript s.messages
        → HasOwnRow w.outside
        → Begun host.store Grown (halt_on loop still s w).0 (halt_on loop still s w).1
    unfolding halt_on finish_approval_needed
    halt_on-Begun [] w grows p i = (grows, p, i)
    halt_on-Begun (c ∷ cs) w grows p i = finish-Begun _ _ w (waits_for_approval _) grows p i

    after_batch-Begun :
        (b : Bool) (still : List ToolCall) (w : World X)
        → GrowsInto Grown s
        → IsTranscript s.messages
        → HasOwnRow w.outside
        → Begun host.store Grown (after_batch loop b still s w).0 (after_batch loop b still s w).1
    unfolding after_batch
    after_batch-Begun true still w grows p i = cancelled-Begun w grows p i
    after_batch-Begun false still w grows p i = halt_on-Begun still w grows p i

    open_calls-keeps :
        (id : String) (js : List Judged) (w : World X)
        → HasOwnRow w.outside
        → HasOwnRow (open_calls loop id js w).1.outside
    unfolding open_calls
    open_calls-keeps id [] w i = i
    open_calls-keeps id (j ∷ js) w i =
        proceed-keeps HasOwnRow _ _ _ ((kept s.run_id s.workspace).on_broadcast _ w i)
          (λ _ u l. open_calls-keeps id js u l)

    denied_or-keeps :
        (tools : ToolRegistry) (d : ApprovalDecision) (reason : Option String) (call : ToolCall)
        → (x : X) → HasOwnRow x
        → HasOwnRow (denied_or loop.tool_host tools d reason call x).1
    unfolding denied_or
    denied_or-keeps tools ApprovalDecision.deny reason call x i = i
    denied_or-keeps tools ApprovalDecision.approve reason call x i =
        execute_tool-keeps loop HasOwnRow (kept s.run_id s.workspace) tools call x i

    run_judged-keeps :
        (js : List Judged) (w : World X)
        → HasOwnRow w.outside
        → HasOwnRow (run_judged loop js w).1.outside
    unfolding run_judged resolve_batch execute_verdict
    run_judged-keeps js w i =
        gather-keeps HasOwnRow (verdict_work loop) js w.outside
          (λ j y l. denied_or-keeps _ j.verdict.decision _ j.call y l) i

  module _ (id : String) (s : RunState) (grows : GrowsInto Grown s)
      (p : IsTranscript s.messages) where
    resolve_judged-Begun :
        (js : List Judged) (still : List ToolCall) (w : World X)
        → HasRow host.store s.run_id s.workspace w.outside
        → Begun host.store Grown
            (resolve_judged loop id s js still w).0
            (resolve_judged loop id s js still w).1
    unfolding resolve_judged
    resolve_judged-Begun [] still w i = halt_on-Begun s still w grows p i
    resolve_judged-Begun (j ∷ js) still w i = proceed-Begun host.store Grown _ _ _ (λ _ _.
        let u = (open_calls loop id (j ∷ js) w).1 in
        let i₁ = open_calls-keeps s id (j ∷ js) w i in
        proceed-Begun host.store Grown _ _ _ (λ ran _.
          let v = (run_judged loop (j ∷ js) u).1 in
          let i₂ = run_judged-keeps s (j ∷ js) u i₁ in
          proceed-Begun host.store Grown _ _ _ (λ grown e.
            let i₃ =
              fold_results-keeps loop (HasRow host.store s.run_id s.workspace)
                (kept s.run_id s.workspace) id ran.0 s v i₂ in
            let g = eq-Returns _ e (fold_results-Evolves loop id ran.0 s v here) in
            let x = Evolves-IsExtension g in
            after_batch-Begun grown ran.1 still _
              (λ t n f. let (k, h) = Evolves_trans g f in grows t k h) (Evolves-IsTranscript g p)
              (subst₂ (λ a b. HasRow host.store a b (fold_results loop id s ran.0 v).1.outside)
                (sym x.same_run) (sym x.same_workspace) i₃))))

    unless_cancelled-Begun :
        (b : Bool) (rest : Effect X Applied) (w : World X)
        → HasRow host.store s.run_id s.workspace w.outside
        → Begun host.store Grown (rest w).0 (rest w).1
        → Begun host.store Grown
            (unless_cancelled loop b s rest w).0
            (unless_cancelled loop b s rest w).1
    unfolding unless_cancelled
    unless_cancelled-Begun true rest w i h = cancelled-Begun s w grows p i
    unless_cancelled-Begun false rest w i h = h

    apply_pending-Begun :
        (verdicts : Dict ApprovalVerdict) (pending : List ToolCall) (w : World X)
        → HasRow host.store s.run_id s.workspace w.outside
        → Begun host.store Grown
            (apply_pending loop id s verdicts pending w).0
            (apply_pending loop id s verdicts pending w).1
    unfolding apply_pending
    apply_pending-Begun verdicts [] w i = (grows, p, i)
    apply_pending-Begun verdicts (c ∷ cs) w i =
        unless_cancelled-Begun (loop.is_cancelled w.outside) _ w i
          (resolve_judged-Begun (decided verdicts (c ∷ cs)) (still_pending verdicts (c ∷ cs)) w i)

    pub apply_approvals-Begun :
        (verdicts : Dict ApprovalVerdict) (w : World X)
        → HasRow host.store s.run_id s.workspace w.outside
        → Begun host.store Grown
            (apply_approvals loop s id verdicts w).0
            (apply_approvals loop s id verdicts w).1
    unfolding apply_approvals
    apply_approvals-Begun verdicts w i =
        apply_pending-Begun verdicts (unmatched_tool_calls s.messages) w i
