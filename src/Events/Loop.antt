-- ===== src/Events/Loop.antt =====
-- events/loop.py: the loop from the model to its Tools and back. The state of the Run is the local
-- variable of `advance`; each awaited step is an effect on the world, and what leaves the body of
-- the loop carries the value that variable had, which is what `except` reads.
pub mod Model
pub mod Batch
pub mod Turn
pub mod Folding
pub mod Growth
pub mod Bound
pub mod Limit
pub mod Keeps
pub mod Outcome
pub mod Landing
use milky_frog_lite.Prelude.{
  ℕ, suc, zero, ◌+◌, Bool, true, false, ◌||◌, String, List, [], ◌∷◌, Option, none, some, ltb, ◌==◌,
}
use milky_frog_lite.Domain.Message.{ToolCall}
use milky_frog_lite.Domain.Run.{RunState, RunResult}
use milky_frog_lite.Events.{
  Raised, tool_run_cancelled, task_cancelled, error, Attempt, returned, raised, World, Effect,
}
use milky_frog_lite.Events.Emitter.{
  PythonText, finish_failed, finish_completed, finish_paused, finish_cancelled,
  finish_approval_needed,
}
use milky_frog_lite.Events.Hub.{EventHub}
use milky_frog_lite.Events.Loop.Model.{LoopHost}
use milky_frog_lite.Events.Loop.Turn.{
  Finish, as_completed, as_cancelled, as_waiting, as_paused, Step, next, stop, threw, turn,
}

-- The condition of `while`; a limit of 0 is no limit, as a negative one is in the source.
unfoldable pub continues : ℕ → RunState → Bool
continues max_calls state = max_calls == 0 || ltb state.completed_model_calls max_calls

module _ {X : Type 0} (host : LoopHost X) where
  -- One more turn, unless the last one left the loop.
  abbrev pub resume_loop :
      Step RunState × World X
      → (RunState → World X → Option (Step RunState × World X))
      → Option (Step RunState × World X)
  resume_loop (next state, w) rest = rest state w
  resume_loop (stop how state, w) rest = some (stop how state, w)
  resume_loop (threw e state, w) rest = some (threw e state, w)

  -- `while`, on fuel: `none` when it is spent.
  unfoldable pub run_loop : ℕ → ℕ → RunState → World X → Option (Step RunState × World X)
  run_loop zero max_calls state w = none
  run_loop (suc fuel) max_calls state w = elim (continues max_calls state) [
    | false ↦ some (stop as_paused state, w)
    | true ↦ resume_loop (turn host state w) (run_loop fuel max_calls)
  ]

  -- `return await self._hub.finish_...`
  unfoldable pub conclude : ℕ → Finish → RunState → Effect X RunResult
  conclude max_calls (as_completed message) state = finish_completed host.hub state message
  conclude max_calls as_cancelled state = finish_cancelled host.hub state "cancelled"
  conclude max_calls (as_waiting calls) state =
      finish_approval_needed host.hub host.text state calls
  conclude max_calls as_paused state = finish_paused host.hub host.text state max_calls

  -- the two `except` clauses
  unfoldable pub handle : Raised → RunState → Effect X RunResult
  handle task_cancelled state w = elim (host.is_cancelled w.outside) [
    | true ↦ finish_cancelled host.hub state "cancelled" w
    | false ↦ (raised task_cancelled, w)
  ]
  handle tool_run_cancelled state w = finish_failed host.hub state tool_run_cancelled w
  handle (error name message upstream) state w =
      finish_failed host.hub state (error name message upstream) w

  -- what a `return` inside `try` raises is handled as well
  unfoldable pub guarded : RunState → Attempt RunResult × World X → Attempt RunResult × World X
  unfolding handle
  guarded state (returned result, w) = (returned result, w)
  guarded state (raised e, w) = handle e state w

  unfoldable pub settle : ℕ → Step RunState × World X → Attempt RunResult × World X
  unfolding guarded conclude
  settle max_calls (next state, w) = guarded state (conclude max_calls as_paused state w)
  settle max_calls (stop how state, w) = guarded state (conclude max_calls how state w)
  settle max_calls (threw e state, w) = handle e state w

  abbrev pub settled : ℕ → Option (Step RunState × World X) → Option (Attempt RunResult × World X)
  settled max_calls none = none
  settled max_calls (some left) = some (settle max_calls left)

  unfoldable pub advance : ℕ → ℕ → RunState → World X → Option (Attempt RunResult × World X)
  unfolding run_loop settle
  advance fuel max_calls state w = settled max_calls (run_loop fuel max_calls state w)
