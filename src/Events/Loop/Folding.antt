-- ===== src/Events/Loop/Folding.antt =====
-- What a batch of Tool calls leaves in the transcript.
use milky_frog_lite.Prelude.{
  Bool, true, String, List, [], ◌∷◌, ◌++◌, ◌≡◌, refl, ap, sym, map, append-nil, append_assoc, ◌⊎◌,
  inl, inr, subst, false, ◌∙◌,
}
use milky_frog_lite.Domain.Message.{ToolCall, ToolResult, Message, error_result}
use milky_frog_lite.Domain.Run.{RunState}
use milky_frog_lite.Transcript.{append_tool_result, result_message}
use milky_frog_lite.Events.{
  Attempt, returned, raised, World, error, proceed, Effect, tool_run_cancelled, task_cancelled,
}
use milky_frog_lite.Events.ToolStep.{
  Resolved, pair, miscast, call_of, keep_resolved, resolve_results, gather, resolve_batch,
}
use milky_frog_lite.Events.Loop.Model.{LoopHost}
use milky_frog_lite.Events.Loop.Batch.{
  Decided, BatchResult, fold_results, execute_decided_batch, run_batch, work_of, announce,
}
use milky_frog_lite.Events.Loop.Growth.{Returns, Returns-tt, proceed-Returns}

-- The answer of a call. What is no result has none; an empty one stands for it here.
abbrev pub answer : Resolved → Message
answer (pair call outcome) = result_message call outcome
answer (miscast call e) = result_message call (error_result "")

-- The calls of a batch whose Tool returned, in order, each with what it returned.
pub returned_calls : List (ToolCall × Attempt ToolResult) → List Resolved
returned_calls [] = []
returned_calls ((call, returned result) ∷ es) = pair call result ∷ returned_calls es
returned_calls ((call, raised e) ∷ es) = returned_calls es

-- Whether a Tool of a batch ended by the cooperative cancel.
pub interrupts : List (ToolCall × Attempt ToolResult) → Bool
interrupts [] = false
interrupts ((call, raised tool_run_cancelled) ∷ es) = true
interrupts ((call, returned result) ∷ es) = interrupts es
interrupts ((call, raised task_cancelled) ∷ es) = interrupts es
interrupts ((call, raised (error name message upstream)) ∷ es) = interrupts es

-- Only results, no exception.
abbrev HasResults : List Resolved → Type 0
HasResults [] = Unit
HasResults (pair call outcome ∷ resolved) = HasResults resolved
HasResults (miscast call e ∷ resolved) = ⊥

resolve_results-returned_calls :
    (es : List (ToolCall × Attempt ToolResult))
    → HasResults (resolve_results es).0
    → (resolve_results es).0 ≡ returned_calls es
unfolding resolve_results returned_calls
resolve_results-returned_calls [] h = refl
resolve_results-returned_calls ((call, returned result) ∷ es) h =
    ap (λ l. pair call result ∷ l) (resolve_results-returned_calls es h)
resolve_results-returned_calls ((call, raised tool_run_cancelled) ∷ es) h =
    resolve_results-returned_calls es h
resolve_results-returned_calls ((call, raised task_cancelled) ∷ es) h = absurd h
resolve_results-returned_calls ((call, raised (error _ _ _)) ∷ es) h = absurd h

resolve_results-interrupts :
    (es : List (ToolCall × Attempt ToolResult)) → (resolve_results es).1 ≡ interrupts es
unfolding resolve_results interrupts
resolve_results-interrupts [] = refl
resolve_results-interrupts ((call, returned result) ∷ es) = resolve_results-interrupts es
resolve_results-interrupts ((call, raised tool_run_cancelled) ∷ es) = refl
resolve_results-interrupts ((call, raised task_cancelled) ∷ es) = resolve_results-interrupts es
resolve_results-interrupts ((call, raised (error _ _ _)) ∷ es) = resolve_results-interrupts es

-- The state with the answers behind its transcript.
abbrev pub answered : RunState → List Resolved → RunState
answered t resolved = record t { messages = t.messages ++ map answer resolved }

-- Either something was cancelled, or every call has its result, in the order of the request.
abbrev pub IsComplete : List ToolCall → List Resolved × Bool → Type 0
IsComplete calls ran = (ran.1 ≡ true) ⊎ (map call_of ran.0 ≡ calls)

keep-IsComplete :
    (call : ToolCall) (r : Attempt ToolResult) (calls : List ToolCall) (rest : List Resolved × Bool)
    → IsComplete calls rest
    → IsComplete (call ∷ calls) (keep_resolved call r rest)
keep-IsComplete call (raised tool_run_cancelled) calls rest h = inl refl
keep-IsComplete call (raised task_cancelled) calls rest (inl h) = inl h
keep-IsComplete call (raised task_cancelled) calls rest (inr h) = inr (ap (λ l. call ∷ l) h)
keep-IsComplete call (raised (error _ _ _)) calls rest (inl h) = inl h
keep-IsComplete call (raised (error _ _ _)) calls rest (inr h) = inr (ap (λ l. call ∷ l) h)
keep-IsComplete call (returned result) calls rest (inl h) = inl h
keep-IsComplete call (returned result) calls rest (inr h) = inr (ap (λ l. call ∷ l) h)

pub resolve_results-IsComplete :
    (es : List (ToolCall × Attempt ToolResult))
    → IsComplete (map (λ (e : ToolCall × Attempt ToolResult). e.0) es) (resolve_results es)
unfolding resolve_results
resolve_results-IsComplete [] = inr refl
resolve_results-IsComplete (e ∷ es) =
    keep-IsComplete e.0 e.1 _ (resolve_results es) (resolve_results-IsComplete es)

pub answered-append :
    (t : RunState) (call : ToolCall) (outcome : ToolResult) (resolved : List Resolved)
    → answered (append_tool_result t call outcome) resolved
      ≡ answered t (pair call outcome ∷ resolved)
unfolding append_tool_result
answered-append t call outcome resolved =
    ap (λ l. record t { messages = l })
      (append_assoc t.messages (result_message call outcome ∷ []) (map answer resolved))

pub eq-Returns :
    {A : Type 0} (Q : A → Type 0) {r : Attempt A} {a : A} → r ≡ returned a → Returns Q r → Q a
unfolding Returns
eq-Returns Q h x = subst (Returns Q) h x

module _ {X : Type 0} (host : LoopHost X) where
  gather-calls :
      (ds : List Decided) (x : X)
      → map (λ (e : ToolCall × Attempt ToolResult). e.0) (gather (map (work_of host) ds) x).0
        ≡ map (λ (d : Decided). d.call) ds
  unfolding gather work_of
  gather-calls [] x = refl
  gather-calls (d ∷ ds) x = ap (λ l. d.call ∷ l) (gather-calls ds _)

  run_batch-IsComplete :
      (ds : List Decided) (w : World X)
      → Returns (IsComplete (map (λ (d : Decided). d.call) ds)) (run_batch host ds w).0
  unfolding run_batch Returns resolve_batch
  run_batch-IsComplete ds w =
      subst (λ l. IsComplete l (resolve_results (gather (map (work_of host) ds) w.outside).0))
        (gather-calls ds w.outside) (resolve_results-IsComplete _)

  pub fold_results-answered :
      (run_id : String) (resolved : List Resolved) (t : RunState) (w : World X)
      → Returns (λ u. u ≡ answered t resolved) (fold_results host run_id t resolved w).0
  unfolding fold_results Returns append_tool_result
  fold_results-answered run_id [] t w =
      ap (λ l. record t { messages = l }) (sym (append-nil t.messages))
  fold_results-answered run_id (pair call outcome ∷ resolved) t w =
      proceed-Returns _ _ _ _ (Returns-tt _) (λ _ v _.
        subst
          (λ y.
            Returns (λ u. u ≡ y)
              (fold_results host run_id (append_tool_result t call outcome) resolved v).0)
          (answered-append t call outcome resolved)
          (fold_results-answered run_id resolved (append_tool_result t call outcome) v))
  fold_results-answered run_id (miscast call e ∷ resolved) t w = tt

  fold_results-HasResults :
      (run_id : String) (resolved : List Resolved) (t : RunState) (w : World X)
      → Returns (λ _. HasResults resolved) (fold_results host run_id t resolved w).0
  unfolding fold_results Returns
  fold_results-HasResults run_id [] t w = tt
  fold_results-HasResults run_id (pair call outcome ∷ resolved) t w =
      proceed-Returns _ _ _ _ (Returns-tt _) (λ _ v _. fold_results-HasResults run_id resolved _ v)
  fold_results-HasResults run_id (miscast call e ∷ resolved) t w = tt

  -- What the Tools of a batch came to, once every call of it was announced.
  abbrev pub gathered : String → List Decided → World X → List (ToolCall × Attempt ToolResult)
  gathered run_id ds w = (gather (map (work_of host) ds) (announce host run_id ds w).1.outside).0

  proceed_at-Returns :
      {A B : Type 0} (Q : B → Type 0) (r : Attempt A) (v : World X) (f : A → Effect X B)
      → ((a : A) → Returns Q (f a v).0)
      → Returns Q (proceed r v f).0
  unfolding proceed Returns
  proceed_at-Returns Q (returned a) v f h = h a
  proceed_at-Returns Q (raised e) v f h = tt

  ran-Returns :
      (run_id : String) (ds : List Decided) (t : RunState) (w : World X)
      → Returns
          (λ (b : BatchResult).
            (b.resolved ≡ returned_calls (gathered run_id ds w))
            × (b.cancelled ≡ interrupts (gathered run_id ds w)))
          (execute_decided_batch host run_id t ds w).0
  unfolding execute_decided_batch Returns announce gather returned_calls interrupts run_batch
      resolve_batch
  ran-Returns run_id [] t w = (refl, refl)
  ran-Returns run_id (d ∷ ds) t w =
      proceed_at-Returns _ (announce host run_id (d ∷ ds) w).0 (announce host run_id (d ∷ ds) w).1 _
        (λ _.
          let es = gathered run_id (d ∷ ds) w in
          proceed-Returns _ {R = λ ran. ran ≡ resolve_results es} _ _ _ refl (λ ran u q.
            let q₀ : ran.0 ≡ (resolve_results es).0 = ap (λ (r : List Resolved × Bool). r.0) q in
            proceed-Returns _ {R = λ _. HasResults ran.0} _ _ _
              (fold_results-HasResults run_id ran.0 t u)
              (λ grown x c. (
                q₀ ∙ resolve_results-returned_calls es (subst HasResults q₀ c),
                ap (λ (r : List Resolved × Bool). r.1) q ∙ resolve_results-interrupts es,
              ))))

  batch-Returns :
      (run_id : String) (ds : List Decided) (t : RunState) (w : World X)
      → Returns
          (λ (b : BatchResult).
            (b.state ≡ answered t b.resolved)
            × IsComplete (map (λ (d : Decided). d.call) ds) (b.resolved, b.cancelled))
          (execute_decided_batch host run_id t ds w).0
  unfolding execute_decided_batch Returns
  batch-Returns run_id [] t w =
      (ap (λ l. record t { messages = l }) (sym (append-nil t.messages)), inr refl)
  batch-Returns run_id (d ∷ ds) t w =
      proceed-Returns _ {R = λ _. Unit} _ _ _ (Returns-tt (announce host run_id (d ∷ ds) w).0)
        (λ _ v _.
          proceed-Returns _ {R = IsComplete (map (λ (d : Decided). d.call) (d ∷ ds))} _ _ _
            (run_batch-IsComplete (d ∷ ds) v)
            (λ ran u c.
              proceed-Returns _ {R = λ y. y ≡ answered t ran.0} _ _ _
                (fold_results-answered run_id ran.0 t u) (λ grown x l. (l, c))))

  -- A batch of decided calls that does not raise has resolved the calls whose Tool returned once
  -- all were announced, each with what it returned, in the order of the request and cancelled
  -- siblings or not; it is cancelled exactly if one of the Tools ended by the cooperative cancel;
  -- it leaves the answers of those calls in the transcript, behind what it held, and changes
  -- nothing else of the state; and unless it was cancelled, every call of the batch is resolved.
  pub execute_decided_batch_lem :
      (run_id : String) (ds : List Decided) (t : RunState) (w : World X) (b : BatchResult)
      → (execute_decided_batch host run_id t ds w).0 ≡ returned b
      → (b.resolved ≡ returned_calls (gathered run_id ds w))
        × (b.cancelled ≡ interrupts (gathered run_id ds w))
        × (b.state ≡ record t { messages = t.messages ++ map answer b.resolved })
        × ((b.cancelled ≡ true) ⊎ (map call_of b.resolved ≡ map (λ (d : Decided). d.call) ds))
  execute_decided_batch_lem run_id ds t w b h =
      let (r, c) = eq-Returns _ h (ran-Returns run_id ds t w) in
      let (s, i) = eq-Returns _ h (batch-Returns run_id ds t w) in (r, c, s, i)
