-- ===== src/Events/Loop/Model.antt =====
-- events/loop.py, `_model_turn` and the request it sends; and what the loop is given.
use milky_frog_lite.Prelude.{
  ℕ, Bool, String, List, [], ◌∷◌, Option, none, some, take, if◌then◌else◌, false,
}
use milky_frog_lite.Domain.Json.{JsonObject}
use milky_frog_lite.Domain.Run.{RunState, ModelRequest, ModelResponse}
use milky_frog_lite.Events.{
  Raised, error, returned, raised, World, Effect, ◌>>=◌, run_model_chunk, run_model_reasoning,
}
use milky_frog_lite.Events.Hub.{EventHub, broadcast}
use milky_frog_lite.Events.Emitter.{PythonText}
use milky_frog_lite.Events.ToolStep.{
  ToolHost, Done, work_done, poll_done, both_done, run_cancellable,
}
use milky_frog_lite.Budget.{TokenBudget, trim}
use milky_frog_lite.Context.{ContextManager, assemble}
use milky_frog_lite.Registry.{ToolRegistry}
use milky_frog_lite.Policy.{SessionToolPolicy}

-- What a model streams: texts, reasoning, the response, or an exception.
pub data Chunk : Type 0 where
  text_delta reasoning_delta : String → Chunk
  stream_done : ModelResponse → Chunk
  stream_raises : Raised → Chunk

-- The collaborators of the loop and the arguments of `advance`. The policy and its registry are
-- objects that the user changes while the Run goes on, so they are read from the outside world.
-- `delivered` is how many chunks were taken when the poll of the cancellation ended first.
pub record LoopHost (X : Type 0) : Type 0 where
  pub hub : EventHub X
  pub tool_host : ToolHost X
  pub policy : X → SessionToolPolicy
  pub schemas : ToolRegistry → List JsonObject
  pub context : ContextManager
  pub budget : Option TokenBudget
  pub text : PythonText
  pub is_cancelled : X → Bool
  pub stream : ModelRequest → X → List Chunk
  pub after_stream : ModelRequest → X → X
  pub model_done : ModelRequest → X → Done
  pub delivered : ModelRequest → X → ℕ

module _ {X : Type 0} (host : LoopHost X) where
  -- `ModelRequest(self._context.assemble(state), self._tools.schemas(), run_id=run_id)`
  unfoldable pub make_request : RunState → World X → ModelRequest
  make_request state w = record {
    messages = assemble host.context state;
    tools = host.schemas (host.policy w.outside).registry;
    run_id = state.run_id;
  }

  trim_option : Option TokenBudget → ModelRequest → ModelRequest
  trim_option none request = request
  trim_option (some budget) request = trim budget request

  -- `if budget is not None`
  unfoldable pub trimmed : ModelRequest → ModelRequest
  unfolding trim_option
  trimmed request = trim_option host.budget request

  -- the loop over the stream
  unfoldable pub consume : String → ModelRequest → List Chunk → Effect X ModelResponse
  consume run_id request [] w =
      (raised (error "RuntimeError" "model stream ended without a StreamDone chunk" none), w)
  consume run_id request (text_delta delta ∷ chunks) w =
      (do
        _ ← broadcast host.hub (run_model_chunk run_id request delta)
        consume run_id request chunks)
        w
  consume run_id request (reasoning_delta delta ∷ chunks) w =
      (do
        _ ← broadcast host.hub (run_model_reasoning run_id request delta)
        consume run_id request chunks)
        w
  consume run_id request (stream_done response ∷ chunks) w = (returned response, w)
  consume run_id request (stream_raises e ∷ chunks) w = (raised e, w)

  unfoldable pub streamed : ModelRequest → World X → World X
  streamed request w = record w { outside = host.after_stream request w.outside }

  unfoldable pub model_turn : String → ModelRequest → Effect X ModelResponse
  unfolding consume streamed
  model_turn run_id request w =
      consume run_id request (host.stream request w.outside) (streamed request w)

  -- the chunks that were delivered before the poll ended first
  unfoldable pub interrupted : String → ModelRequest → World X → World X
  unfolding consume streamed
  interrupted run_id request w =
      (consume run_id request
        (take (host.delivered request w.outside) (host.stream request w.outside))
        (streamed request w)).1

  unfoldable pub raced : Done → String → ModelRequest → Effect X ModelResponse
  unfolding model_turn interrupted
  raced poll_done run_id request w =
      (run_cancellable false poll_done (raised (error "" "" none)), interrupted run_id request w)
  raced work_done run_id request w = (
    run_cancellable false work_done (model_turn run_id request w).0,
    (model_turn run_id request w).1,
  )
  raced both_done run_id request w = (
    run_cancellable false both_done (model_turn run_id request w).0,
    (model_turn run_id request w).1,
  )

  -- `await run_cancellable(self._model_turn(run_id, request), cancellation)`
  unfoldable pub cancellable_turn : String → ModelRequest → Effect X ModelResponse
  unfolding raced
  cancellable_turn run_id request w =
      if host.tool_host.has_cancellation
      then raced (host.model_done request w.outside) run_id request w
      else model_turn run_id request w
