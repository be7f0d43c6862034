-- ===== src/Events/Loop/Keeps.antt =====
-- What holds of the outside world throughout a Run, if the Handlers, the model and the Tools keep it.
use milky_frog_lite.Prelude.{
  Bool, true, false, String, List, [], ◌∷◌, Option, none, some, map, Bool-cases, inl, inr,
}
use milky_frog_lite.Domain.Message.{ToolCall, ToolResult, ToolDecision, allow, deny, needs_approval}
use milky_frog_lite.Domain.Run.{RunState, ModelRequest, ModelResponse, Compacted}
use milky_frog_lite.Registry
use milky_frog_lite.Registry.{Tool, ToolRegistry}
use milky_frog_lite.Events.{
  Event, Attempt, returned, raised, World, Effect, proceed, run_before_tool,
}
use milky_frog_lite.Events.Hub.{broadcast}
use milky_frog_lite.Events.ToolStep.{
  Resolved, pair, run_tool, execute_tool, execute_decided, gather, resolve_batch, Done, work_done,
  poll_done, both_done, miscast,
}
use milky_frog_lite.Events.Loop.Model.{
  LoopHost, Chunk, text_delta, reasoning_delta, stream_done, stream_raises, consume, streamed,
  model_turn, interrupted, raced, cancellable_turn,
}
use milky_frog_lite.Events.Loop.Batch.{
  Decided, announce, work_of, run_batch, fold_results, execute_decided_batch,
}
use milky_frog_lite.Events.Loop.Turn.{
  Step, next, stop, threw, Body, step_on, stop_if, stop_pending, Finish, check_cancelled, shape,
  prepare, call_model, end_turn, run_synthesized, run_runnable, run_calls, respond, turn,
}

-- The collaborators keep a property of the outside world.
pub record IsKept {X : Type 0} (host : LoopHost X) (I : X → Type 0) : Type 0 where
  pub on_broadcast :
      (event : Event) (w : World X) → I w.outside → I (broadcast host.hub event w).1.outside
  pub on_stream : (request : ModelRequest) (x : X) → I x → I (host.after_stream request x)
  pub on_execute :
      (tool : Tool) (prefix : String) (call : ToolCall) (x : X)
      → I x
      → I (host.tool_host.execute tool prefix call x).1

module _ {X A B : Type 0} (I : X → Type 0) where
  pub proceed-keeps :
      (r : Attempt A) (v : World X) (f : A → Effect X B)
      → I v.outside
      → ((a : A) (u : World X) → I u.outside → I (f a u).1.outside)
      → I (proceed r v f).1.outside
  unfolding proceed
  proceed-keeps (returned a) v f i h = h a v i
  proceed-keeps (raised e) v f i h = i

  step_on-keeps :
      (r : Step A) (v : World X) (f : A → Body X B)
      → I v.outside
      → ((a : A) (u : World X) → I u.outside → I (f a u).1.outside)
      → I (step_on r v f).1.outside
  unfolding step_on
  step_on-keeps (next a) v f i h = h a v i
  step_on-keeps (stop how t) v f i h = i
  step_on-keeps (threw e t) v f i h = i

module _ {X : Type 0} (I : X → Type 0) where
  stop_if-keeps :
      (b : Bool) (how : Finish) (t : RunState) (w : World X)
      → I w.outside
      → I (stop_if b how t w).1.outside
  stop_if-keeps true how t w i = i
  stop_if-keeps false how t w i = i

  stop_pending-keeps :
      (calls : List ToolCall) (t : RunState) (w : World X)
      → I w.outside
      → I (stop_pending calls t w).1.outside
  stop_pending-keeps [] t w i = i
  stop_pending-keeps (c ∷ calls) t w i = i

  -- A batch whose works keep the property keeps it.
  pub gather-keeps :
      {D : Type 0} (work : D → ToolCall × (X → Attempt ToolResult × X)) (ds : List D) (x : X)
      → ((d : D) (y : X) → I y → I ((work d).1 y).1)
      → I x
      → I (gather (map work ds) x).1
  unfolding gather
  gather-keeps work [] x h i = i
  gather-keeps work (d ∷ ds) x h i = gather-keeps work ds _ h (h d x i)

module _ {X : Type 0} (host : LoopHost X) (I : X → Type 0) (k : IsKept host I) where
  run_tool-keeps :
      (tools : ToolRegistry) (found : Option Tool) (call : ToolCall) (x : X)
      → I x
      → I (run_tool host.tool_host tools found call x).1
  unfolding run_tool
  run_tool-keeps tools none call x i = i
  run_tool-keeps tools (some tool) call x i = k.on_execute tool _ call x i

  pub execute_tool-keeps :
      (tools : ToolRegistry) (call : ToolCall) (x : X)
      → I x
      → I (execute_tool host.tool_host tools call x).1
  unfolding execute_tool
  execute_tool-keeps tools call x i = run_tool-keeps tools (Registry.get tools call.name) call x i

  execute_decided-keeps :
      (tools : ToolRegistry) (call : ToolCall) (d : ToolDecision) (x : X)
      → I x
      → I (execute_decided host.tool_host tools call d x).1
  unfolding execute_decided
  execute_decided-keeps tools call deny x i = i
  execute_decided-keeps tools call allow x i = execute_tool-keeps tools call x i
  execute_decided-keeps tools call needs_approval x i = execute_tool-keeps tools call x i

  run_batch-keeps :
      (ds : List Decided) (w : World X) → I w.outside → I (run_batch host ds w).1.outside
  unfolding run_batch resolve_batch work_of
  run_batch-keeps ds w i =
      gather-keeps I (work_of host) ds w.outside
        (λ d y j. execute_decided-keeps _ d.call d.decision y j) i

  announce-keeps :
      (run_id : String) (ds : List Decided) (w : World X)
      → I w.outside
      → I (announce host run_id ds w).1.outside
  unfolding announce
  announce-keeps run_id [] w i = i
  announce-keeps run_id (d ∷ ds) w i =
      proceed-keeps I _ _ _ (k.on_broadcast (run_before_tool run_id d.call) w i)
        (λ _ u j. announce-keeps run_id ds u j)

  pub fold_results-keeps :
      (run_id : String) (rs : List Resolved) (t : RunState) (w : World X)
      → I w.outside
      → I (fold_results host run_id t rs w).1.outside
  unfolding fold_results
  fold_results-keeps run_id [] t w i = i
  fold_results-keeps run_id (pair call outcome ∷ rs) t w i =
      proceed-keeps I _ _ _ (k.on_broadcast _ w i) (λ _ u j. fold_results-keeps run_id rs _ u j)
  fold_results-keeps run_id (miscast call e ∷ rs) t w i = i

  batch-keeps :
      (run_id : String) (ds : List Decided) (t : RunState) (w : World X)
      → I w.outside
      → I (execute_decided_batch host run_id t ds w).1.outside
  unfolding execute_decided_batch
  batch-keeps run_id [] t w i = i
  batch-keeps run_id (d ∷ ds) t w i =
      proceed-keeps I _ _ _ (announce-keeps run_id (d ∷ ds) w i) (λ _ u j.
        proceed-keeps I _ _ _ (run_batch-keeps (d ∷ ds) u j)
          (λ ran v l. proceed-keeps I _ _ _ (fold_results-keeps run_id ran.0 t v l) (λ _ _ m. m)))

  consume-keeps :
      (run_id : String) (request : ModelRequest) (cs : List Chunk) (w : World X)
      → I w.outside
      → I (consume host run_id request cs w).1.outside
  unfolding consume
  consume-keeps run_id request [] w i = i
  consume-keeps run_id request (text_delta d ∷ cs) w i =
      proceed-keeps I _ _ _ (k.on_broadcast _ w i) (λ _ u j. consume-keeps run_id request cs u j)
  consume-keeps run_id request (reasoning_delta d ∷ cs) w i =
      proceed-keeps I _ _ _ (k.on_broadcast _ w i) (λ _ u j. consume-keeps run_id request cs u j)
  consume-keeps run_id request (stream_done r ∷ cs) w i = i
  consume-keeps run_id request (stream_raises e ∷ cs) w i = i

  streamed-keeps :
      (run_id : String) (request : ModelRequest) (cs : List Chunk) (w : World X)
      → I w.outside
      → I (consume host run_id request cs (streamed host request w)).1.outside
  unfolding streamed
  streamed-keeps run_id request cs w i =
      consume-keeps run_id request cs _ (k.on_stream request w.outside i)

  raced-keeps :
      (done : Done) (run_id : String) (request : ModelRequest) (w : World X)
      → I w.outside
      → I (raced host done run_id request w).1.outside
  unfolding raced model_turn interrupted
  raced-keeps poll_done run_id request w i = streamed-keeps run_id request _ w i
  raced-keeps work_done run_id request w i = streamed-keeps run_id request _ w i
  raced-keeps both_done run_id request w i = streamed-keeps run_id request _ w i

  cancellable-keeps :
      (run_id : String) (request : ModelRequest) (w : World X)
      → I w.outside
      → I (cancellable_turn host run_id request w).1.outside
  unfolding cancellable_turn model_turn
  cancellable-keeps run_id request w i = elim (Bool-cases host.tool_host.has_cancellation) [
    | inl e ↦ rw (e, cancellable_turn) (raced-keeps _ run_id request w i)
    | inr e ↦ rw (e, cancellable_turn) (streamed-keeps run_id request _ w i)
  ]

  shape-keeps :
      (request : ModelRequest) (t : RunState) (c : Option Compacted) (w : World X)
      → I w.outside
      → I (shape host request (t, c) w).1.outside
  unfolding shape
  shape-keeps request t none w i = i
  shape-keeps request t (some c) w i = step_on-keeps I _ _ _ (k.on_broadcast _ w i) (λ _ u j. j)

  prepare-keeps : (t : RunState) (w : World X) → I w.outside → I (prepare host t w).1.outside
  unfolding prepare
  prepare-keeps t w i =
      step_on-keeps I _ _ _ (k.on_broadcast _ w i)
        (λ _ u j. step_on-keeps I _ _ _ (k.on_broadcast _ u j) (λ _ v l. shape-keeps _ _ _ v l))

  call_model-keeps :
      (p : RunState × ModelRequest) (w : World X) → I w.outside → I (call_model host p w).1.outside
  unfolding call_model
  call_model-keeps (t, request) w i =
      step_on-keeps I _ _ _ (cancellable-keeps t.run_id _ w i)
        (λ _ u j. step_on-keeps I _ _ _ (k.on_broadcast _ u j) (λ _ v l. l))

  end_turn-keeps : (t : RunState) (w : World X) → I w.outside → I (end_turn host t w).1.outside
  unfolding end_turn
  end_turn-keeps t w i = step_on-keeps I _ _ _ (k.on_broadcast _ w i) (λ _ u j. j)

  run_synthesized-keeps :
      (t : RunState) (needs calls : List ToolCall) (w : World X)
      → I w.outside
      → I (run_synthesized host t needs calls w).1.outside
  unfolding run_synthesized
  run_synthesized-keeps t needs [] w i = i
  run_synthesized-keeps t needs (c ∷ calls) w i =
      step_on-keeps I _ _ _ (batch-keeps t.run_id _ t w i)
        (λ b u j. step_on-keeps I _ _ _ (stop_if-keeps I _ _ b.state u j) (λ _ v l. l))

  run_runnable-keeps :
      (t : RunState) (ds : List Decided) (needs : List ToolCall) (w : World X)
      → I w.outside
      → I (run_runnable host t ds needs w).1.outside
  unfolding run_runnable
  run_runnable-keeps t [] needs w i = i
  run_runnable-keeps t (d ∷ ds) needs w i =
      step_on-keeps I _ _ _ (batch-keeps t.run_id (d ∷ ds) t w i) (λ b u j.
        step_on-keeps I _ _ _ (stop_if-keeps I _ _ b.state u j)
          (λ _ v l. run_synthesized-keeps _ needs _ v l))

  run_calls-keeps :
      (t : RunState) (calls : List ToolCall) (w : World X)
      → I w.outside
      → I (run_calls host t calls w).1.outside
  unfolding run_calls
  run_calls-keeps t calls w i = step_on-keeps I _ _ _ (run_runnable-keeps t _ _ w i) (λ b u j.
      step_on-keeps I _ _ _ (stop_pending-keeps I b.needs_approval b.state u j)
        (λ _ v l. end_turn-keeps b.state v l))

  respond-keeps :
      (t : RunState) (response : ModelResponse) (calls : List ToolCall) (w : World X)
      → I w.outside
      → I (respond host (t, response) calls w).1.outside
  unfolding respond check_cancelled
  respond-keeps t response [] w i = step_on-keeps I _ _ _ (end_turn-keeps t w i) (λ _ u j. j)
  respond-keeps t response (c ∷ calls) w i =
      step_on-keeps I _ _ _
        (stop_if-keeps I (host.is_cancelled w.outside) Finish.as_cancelled t w i)
        (λ _ u j. run_calls-keeps t (c ∷ calls) u j)

  pub turn-keeps : (t : RunState) (w : World X) → I w.outside → I (turn host t w).1.outside
  unfolding turn check_cancelled
  turn-keeps t w i =
      step_on-keeps I _ _ _
        (stop_if-keeps I (host.is_cancelled w.outside) Finish.as_cancelled t w i)
        (λ _ u j. step_on-keeps I _ _ _ (prepare-keeps t u j) (λ p v l.
          step_on-keeps I _ _ _ (call_model-keeps p v l)
            (λ a x m. respond-keeps a.0 a.1 a.1.tool_calls x m)))
