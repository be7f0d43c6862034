-- ===== src/Events/Loop/Turn.antt =====
-- events/loop.py, one turn of `advance`: the body of its `while`.
use milky_frog_lite.Prelude.{
  ◌+◌, Bool, true, false, String, List, [], ◌∷◌, ◌++◌, Option, none, some,
}
use milky_frog_lite.Domain.Message.{ToolCall}
use milky_frog_lite.Domain.Run.{RunState, ModelRequest, ModelResponse, Compacted}
use milky_frog_lite.Transcript.{append_model_response}
use milky_frog_lite.Events.{
  Raised, tool_run_cancelled, task_cancelled, error, Attempt, returned, raised, World, Effect,
  run_turn_start, run_turn_end, run_before_model, run_after_model, run_compaction,
}
use milky_frog_lite.Events.Hub.{broadcast}
use milky_frog_lite.Events.Loop.Model.{LoopHost, make_request, trimmed, cancellable_turn}
use milky_frog_lite.Events.Loop.Batch.{
  Decided, runnable, pending, synthesized, append_synthesized, decide_all, execute_decided_batch,
}

-- Which `finish_...` of the emitter a `return` calls.
pub data Finish : Type 0 where
  as_completed : String → Finish
  as_cancelled : Finish
  as_waiting : List ToolCall → Finish
  as_paused : Finish

-- The body goes on, returns with the state it had, or raises with the state it had.
pub data Step (A : Type 0) : Type 0 where
  next : A → Step A
  stop : Finish → RunState → Step A
  threw : Raised → RunState → Step A

abbrev pub Body : Type 0 → Type 0 → Type 0
Body X A = World X → Step A × World X

unfoldable pub step_on : {X A B : Type 0} → Step A → World X → (A → Body X B) → Step B × World X
step_on (next a) w f = f a w
step_on (stop how state) w f = (stop how state, w)
step_on (threw e state) w f = (threw e state, w)

infixl 5 ◌>>=◌
abbrev pub ◌>>=◌ : {X A B : Type 0} → Body X A → (A → Body X B) → Body X B
(m >>= f) w = step_on (m w).0 (m w).1 f

-- `_apply_control`
unfoldable pub apply_control :
    RunState → Option Compacted → List Compacted → RunState × Option Compacted
apply_control state applied [] = (state, applied)
apply_control state applied (c ∷ results) =
    apply_control (record state { compaction = some c.compaction }) (some c) results

abbrev pub tagged : {A : Type 0} → RunState → Attempt A → Step A
tagged state (returned a) = next a
tagged state (raised e) = threw e state

-- the `except ToolRunCancelled` around the model's turn
abbrev pub tagged_turn : RunState → Attempt ModelResponse → Step ModelResponse
tagged_turn state (returned response) = next response
tagged_turn state (raised tool_run_cancelled) = stop as_cancelled state
tagged_turn state (raised task_cancelled) = threw task_cancelled state
tagged_turn state (raised (error name message upstream)) = threw (error name message upstream) state

module _ {X : Type 0} where
  -- An effect that is awaited while the local variable holds this state.
  abbrev pub await : {A : Type 0} → RunState → Effect X A → Body X A
  await state m w = (tagged state (m w).0, (m w).1)

  abbrev pub stop_if : Bool → Finish → RunState → Body X RunState
  stop_if true how state w = (stop how state, w)
  stop_if false how state w = (next state, w)

  abbrev pub stop_pending : List ToolCall → RunState → Body X RunState
  stop_pending [] state w = (next state, w)
  stop_pending (call ∷ calls) state w = (stop (as_waiting (call ∷ calls)) state, w)

-- The state, and the calls that need approval.
pub record Batched : Type 0 where
  pub state : RunState
  pub needs_approval : List ToolCall

module _ {X : Type 0} (host : LoopHost X) where
  unfoldable pub check_cancelled : RunState → Body X RunState
  check_cancelled state w = stop_if (host.is_cancelled w.outside) as_cancelled state w

  -- `if shaped is not state`: a proposal was applied
  unfoldable pub shape :
      ModelRequest → RunState × Option Compacted → Body X (RunState × ModelRequest)
  shape request (state, none) w = (next (state, request), w)
  shape request (state, some c) w =
      (do
        _ ← await state (broadcast host.hub (run_compaction state.run_id c.messages_folded c.usage))
        λ w'. (next (state, make_request host state w'), w'))
        w

  -- from the request to what the Handlers make of it
  unfoldable pub prepare : RunState → Body X (RunState × ModelRequest)
  unfolding shape apply_control
  prepare state w =
      let request = make_request host state w in
      (do
        _ ←
            await state
              (broadcast host.hub (run_turn_start state.run_id (state.completed_model_calls + 1)))
        shaping ← await state (broadcast host.hub (run_before_model state.run_id request state))
        shape request (apply_control state none shaping))
        w

  -- the model's turn, and the response appended
  unfoldable pub call_model : RunState × ModelRequest → Body X (RunState × ModelResponse)
  call_model (state, request) = do
    let sent = trimmed host request
    response ← λ w. (
      tagged_turn state (cancellable_turn host state.run_id sent w).0,
      (cancellable_turn host state.run_id sent w).1,
    )
    let grown = append_model_response state response
    _ ← await grown (broadcast host.hub (run_after_model state.run_id sent response grown))
    λ w. (next (grown, response), w)

  unfoldable pub end_turn : RunState → Body X RunState
  end_turn state = do
    _ ← await state (broadcast host.hub (run_turn_end state.run_id state.completed_model_calls))
    λ w. (next state, w)

  -- `if synthesized`: the follow-up calls go through the same policy
  unfoldable pub run_synthesized : RunState → List ToolCall → List ToolCall → Body X Batched
  run_synthesized state needs [] w = (next (record { state = state; needs_approval = needs }), w)
  run_synthesized state needs (call ∷ calls) w =
      let decided = decide_all host (call ∷ calls) w in
      (do
        batch ← await state (execute_decided_batch host state.run_id state (runnable decided))
        _ ← stop_if batch.cancelled as_cancelled batch.state
        λ w. (next (record { state = batch.state; needs_approval = needs ++ pending decided }), w))
        w

  -- `if runnable`, and the follow-up calls of what ran
  unfoldable pub run_runnable : RunState → List Decided → List ToolCall → Body X Batched
  unfolding run_synthesized
  run_runnable state [] needs w = (next (record { state = state; needs_approval = needs }), w)
  run_runnable state (d ∷ ds) needs w =
      (do
        batch ← await state (execute_decided_batch host state.run_id state (d ∷ ds))
        _ ← stop_if batch.cancelled as_cancelled batch.state
        let calls = synthesized batch.resolved
        run_synthesized (append_synthesized batch.state calls) needs calls)
        w

  -- the calls of a response, from their decisions to the end of the turn
  unfoldable pub run_calls : RunState → List ToolCall → Body X RunState
  unfolding run_runnable end_turn
  run_calls state calls w =
      let decided = decide_all host calls w in
      (do
        batched ← run_runnable state (runnable decided) (pending decided)
        _ ← stop_pending batched.needs_approval batched.state
        end_turn batched.state)
        w

  -- `if not response.tool_calls`
  unfoldable pub respond : RunState × ModelResponse → List ToolCall → Body X RunState
  unfolding run_calls end_turn
  respond (state, response) [] = do
    ended ← end_turn state
    λ w. (stop (as_completed response.content) ended, w)
  respond (state, response) (call ∷ calls) = do
    _ ← check_cancelled state
    run_calls state (call ∷ calls)

  -- the body of `while`
  unfoldable pub turn : RunState → Body X RunState
  unfolding prepare call_model respond check_cancelled
  turn state = do
    _ ← check_cancelled state
    shaped ← prepare state
    answered ← call_model shaped
    respond answered answered.1.tool_calls
