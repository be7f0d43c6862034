-- ===== src/Approvals/Waiting.antt =====
-- Which calls wait once verdicts have been applied.
use milky_frog_lite.Events.Emitter.{finish_cancelled, finish_approval_needed}
use milky_frog_lite.Prelude.{
  Bool, true, false, not, String, List, [], ◌∷◌, Option, none, some, map, filter, find, Dict, ◌≡◌,
  refl, ap, ◌∙◌, sym, ◌⊎◌, inl, inr, contains, str_eq, ◌&&◌, filter-filter, filter_congr, arith,
  All, Bool-cases, eq_iff, subst, eq_refl, if◌then◌else◌, append-nil, false≢true,
}
use milky_frog_lite.Domain.Message.{ToolCall, ToolResult, error_result}
use milky_frog_lite.Domain.Approval.{ApprovalVerdict}
use milky_frog_lite.Domain.Run.{RunState, RunResult}
use milky_frog_lite.Transcript.{unmatched_tool_calls, append_tool_result}
use milky_frog_lite.Transcript.Matching.{unmatched-append_tool_result}
use milky_frog_lite.Approvals.{
  Applied, prepared, halted, Judged, judge, decided, still_pending, has_verdict, is_some,
  open_calls, verdict_work, run_judged, halt, halt_on, after_batch, resolve_judged,
  unless_cancelled, apply_pending, apply_approvals, finish_cancelled, finish_approval_needed,
}
use milky_frog_lite.Events.{Attempt, returned, World, Effect}
use milky_frog_lite.Events.ToolStep.{
  Resolved, pair, call_of, resolve_results, gather, resolve_batch, miscast,
}
use milky_frog_lite.Events.Loop.Model.{LoopHost}
use milky_frog_lite.Events.Loop.Growth.{Returns, Returns-tt, proceed-Returns}
use milky_frog_lite.Events.Loop.Folding.{
  answered, answered-append, IsComplete, eq-Returns, resolve_results-IsComplete,
  fold_results-answered,
}

abbrev ids : List ToolCall → List String
ids = map (λ (c : ToolCall). c.id)

filter-true : (cs : List ToolCall) → filter (λ _. true) cs ≡ cs
filter-true [] = refl
filter-true (c ∷ cs) = ap (λ l. c ∷ l) (filter-true cs)

-- A call waits behind answers if it waited before them and none of them bears its id.
unmatched-answered :
    (resolved : List Resolved) (t : RunState)
    → unmatched_tool_calls (answered t resolved).messages
      ≡ filter
          (λ c. not (contains (ids (map call_of resolved)) c.id))
          (unmatched_tool_calls t.messages)
unmatched-answered [] t = ap unmatched_tool_calls (append-nil t.messages) ∙ sym (filter-true _)
unmatched-answered (pair call outcome ∷ resolved) t =
    ap (λ (u : RunState). unmatched_tool_calls u.messages)
      (sym (answered-append t call outcome resolved))
    ∙ unmatched-answered resolved (append_tool_result t call outcome)
    ∙ ap (filter (λ c. not (contains (ids (map call_of resolved)) c.id)))
        (unmatched-append_tool_result t call outcome)
    ∙ filter-filter _ _ (unmatched_tool_calls t.messages)
    ∙ filter_congr
        (λ x. not (str_eq call.id x.id) && not (contains (ids (map call_of resolved)) x.id))
        (λ x. not (contains (ids (map call_of (pair call outcome ∷ resolved))) x.id))
        (unmatched_tool_calls t.messages) (λ c. ground arith)
unmatched-answered (miscast call e ∷ resolved) t =
    ap (λ (u : RunState). unmatched_tool_calls u.messages)
      (sym (answered-append t call (error_result "") resolved))
    ∙ unmatched-answered resolved (append_tool_result t call (error_result ""))
    ∙ ap (filter (λ c. not (contains (ids (map call_of resolved)) c.id)))
        (unmatched-append_tool_result t call (error_result ""))
    ∙ filter-filter _ _ (unmatched_tool_calls t.messages)
    ∙ filter_congr
        (λ x. not (str_eq call.id x.id) && not (contains (ids (map call_of resolved)) x.id))
        (λ x. not (contains (ids (map call_of (miscast call e ∷ resolved))) x.id))
        (unmatched_tool_calls t.messages) (λ c. ground arith)

judge-calls :
    (c : ToolCall) (o : Option ApprovalVerdict) (js : List Judged) (l : List ToolCall)
    → map (λ (j : Judged). j.call) js ≡ l
    → map (λ (j : Judged). j.call) (judge c o js) ≡ (if is_some o then c ∷ l else l)
judge-calls c none js l h = h
judge-calls c (some v) js l h = ap (λ k. c ∷ k) h

decided-calls :
    (verdicts : Dict ApprovalVerdict) (pending : List ToolCall)
    → map (λ (j : Judged). j.call) (decided verdicts pending)
      ≡ filter (λ c. has_verdict verdicts c.id) pending
unfolding decided
decided-calls verdicts [] = refl
decided-calls verdicts (c ∷ pending) =
    judge-calls c (find verdicts c.id) _ _ (decided-calls verdicts pending)

-- Among pending calls, those whose id some decided call bears are those that have a verdict.
contains-decided :
    (p : String → Bool) (pending : List ToolCall) (id : String)
    → contains (ids (filter (λ c. p c.id) pending)) id ≡ (contains (ids pending) id && p id)
contains-decided p [] id = refl
contains-decided p (c ∷ pending) id = ground (arith, eq_iff c.id id, contains-decided p pending id)

filter_congr_among :
    (p q : ToolCall → Bool) (among calls : List ToolCall)
    → ((c : ToolCall) → contains (ids among) c.id ≡ true → p c ≡ q c)
    → All (λ c. contains (ids among) c.id ≡ true) calls
    → filter p calls ≡ filter q calls
filter_congr_among p q among [] h a = refl
filter_congr_among p q among (c ∷ calls) h a =
    ground (arith, h c a.0, filter_congr_among p q among calls h a.1)

All-contains_among :
    (among calls : List ToolCall)
    → ((id : String) → contains (ids calls) id ≡ true → contains (ids among) id ≡ true)
    → All (λ c. contains (ids among) c.id ≡ true) calls
All-contains_among among [] f = tt
All-contains_among among (c ∷ calls) f = (
  f c.id (rw (eq_refl c.id) refl),
  All-contains_among among calls (λ id h. f id (rw h (ground arith))),
)

All-contains : (calls : List ToolCall) → All (λ c. contains (ids calls) c.id ≡ true) calls
All-contains calls = All-contains_among calls calls (λ id h. h)

-- Once each call with a verdict has its answer, the calls that wait are those without a verdict.
pub still_pending_lem :
    (verdicts : Dict ApprovalVerdict) (t : RunState) (resolved : List Resolved)
    → map call_of resolved
      ≡ map (λ (j : Judged). j.call) (decided verdicts (unmatched_tool_calls t.messages))
    → unmatched_tool_calls (answered t resolved).messages
      ≡ still_pending verdicts (unmatched_tool_calls t.messages)
still_pending_lem verdicts t resolved h =
    let pending = unmatched_tool_calls t.messages in
    unmatched-answered resolved t
    ∙ ap (λ l. filter (λ c. not (contains (ids l) c.id)) pending)
        (h ∙ decided-calls verdicts pending)
    ∙ filter_congr_among _ _ pending pending
        (λ c k. ap not (contains-decided (has_verdict verdicts) pending c.id ∙ rw k refl))
        (All-contains pending)

abbrev NoneWaits : Applied → Type 0
NoneWaits (prepared t) = unmatched_tool_calls t.messages ≡ []
NoneWaits (halted result) = Unit

module _ {X : Type 0} (host : LoopHost X) where
  halt-Returns :
      (finish : Effect X RunResult) (w : World X) → Returns NoneWaits (halt host finish w).0
  unfolding halt Returns
  halt-Returns finish w = proceed-Returns NoneWaits _ _ _ (Returns-tt (finish w).0) (λ _ v _. tt)

  halt_on-Returns :
      (still : List ToolCall) (t : RunState) (w : World X)
      → unmatched_tool_calls t.messages ≡ still
      → Returns NoneWaits (halt_on host still t w).0
  unfolding halt_on Returns
  halt_on-Returns [] t w h = h
  halt_on-Returns (c ∷ cs) t w h =
      halt-Returns (finish_approval_needed host.hub host.text t (c ∷ cs)) w

  after_batch-Returns :
      (cancelled : Bool) (still : List ToolCall) (t : RunState) (w : World X)
      → (cancelled ≡ true) ⊎ (unmatched_tool_calls t.messages ≡ still)
      → Returns NoneWaits (after_batch host cancelled still t w).0
  unfolding after_batch
  after_batch-Returns true still t w h = halt-Returns (finish_cancelled host.hub t "cancelled") w
  after_batch-Returns false still t w (inl h) = absurd (false≢true h)
  after_batch-Returns false still t w (inr h) = halt_on-Returns still t w h

  work-calls :
      (js : List Judged) (x : X)
      → map (λ (e : ToolCall × Attempt ToolResult). e.0) (gather (map (verdict_work host) js) x).0
        ≡ map (λ (j : Judged). j.call) js
  unfolding gather
  work-calls [] x = refl
  work-calls (j ∷ js) x = ap (λ l. j.call ∷ l) (work-calls js _)

  run_judged-IsComplete :
      (js : List Judged) (w : World X)
      → Returns (IsComplete (map (λ (j : Judged). j.call) js)) (run_judged host js w).0
  unfolding run_judged Returns resolve_batch
  run_judged-IsComplete js w =
      subst (λ l. IsComplete l (resolve_results (gather (map (verdict_work host) js) w.outside).0))
        (work-calls js w.outside) (resolve_results-IsComplete _)

  module _ (run_id : String) (verdicts : Dict ApprovalVerdict) (t : RunState) where
    waits_after :
        (js : List Judged) (ran : List Resolved × Bool) (grown : RunState)
        → js ≡ decided verdicts (unmatched_tool_calls t.messages)
        → grown ≡ answered t ran.0
        → IsComplete (map (λ (j : Judged). j.call) js) ran
        → (ran.1 ≡ true)
          ⊎ (unmatched_tool_calls grown.messages
              ≡ still_pending verdicts (unmatched_tool_calls t.messages))
    waits_after js ran grown e g (inl c) = inl c
    waits_after js ran grown e g (inr c) = inr (
        ap (λ (u : RunState). unmatched_tool_calls u.messages) g
        ∙ still_pending_lem verdicts t ran.0 (c ∙ ap (map (λ (j : Judged). j.call)) e))

    resolve_judged-Returns :
        (js : List Judged) (w : World X)
        → js ≡ decided verdicts (unmatched_tool_calls t.messages)
        → Returns NoneWaits
            (resolve_judged host run_id t js
              (still_pending verdicts (unmatched_tool_calls t.messages))
              w).0
    unfolding resolve_judged
    resolve_judged-Returns [] w e = halt_on-Returns _ t w (
        ap unmatched_tool_calls (sym (append-nil t.messages))
        ∙ still_pending_lem verdicts t [] (ap (map (λ (j : Judged). j.call)) e))
    resolve_judged-Returns (j ∷ js) w e =
        proceed-Returns _ {R = λ _. Unit} _ _ _ (Returns-tt (open_calls host run_id (j ∷ js) w).0)
          (λ _ v _.
            proceed-Returns _ {R = IsComplete (map (λ (j : Judged). j.call) (j ∷ js))} _ _ _
              (run_judged-IsComplete (j ∷ js) v)
              (λ ran u c.
                proceed-Returns _ {R = λ y. y ≡ answered t ran.0} _ _ _
                  (fold_results-answered host run_id ran.0 t u)
                  (λ grown x g.
                    after_batch-Returns ran.1 _ grown x (waits_after (j ∷ js) ran grown e g c))))

    apply_pending-Returns :
        (pending : List ToolCall) (w : World X)
        → unmatched_tool_calls t.messages ≡ pending
        → Returns NoneWaits (apply_pending host run_id t verdicts pending w).0
    unfolding apply_pending Returns
    apply_pending-Returns [] w h = h
    apply_pending-Returns (c ∷ cs) w h = elim (Bool-cases (host.is_cancelled w.outside)) [
      | inl e ↦ rw (e, unless_cancelled) (halt-Returns (finish_cancelled host.hub t "cancelled") w)
      | inr e ↦
          rw (e, unless_cancelled)
            (subst
              (λ p.
                Returns NoneWaits
                  (resolve_judged host run_id t (decided verdicts p) (still_pending verdicts p)
                    w).0)
              h (resolve_judged-Returns _ w refl))
    ]

  -- The loop goes on after the verdicts only if no Tool call of the Run waits: what has no verdict,
  -- or was cancelled, halts the Run instead.
  pub apply_approvals-prepared :
      (run_id : String) (verdicts : Dict ApprovalVerdict) (state t : RunState) (w : World X)
      → (apply_approvals host state run_id verdicts w).0 ≡ returned (prepared t)
      → unmatched_tool_calls t.messages ≡ []
  unfolding apply_approvals
  apply_approvals-prepared run_id verdicts state t w h =
      eq-Returns NoneWaits h (apply_pending-Returns run_id verdicts state _ w refl)
