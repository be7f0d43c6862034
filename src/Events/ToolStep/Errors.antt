-- ===== src/Events/ToolStep/Errors.antt =====
-- What running a Tool may raise.
use milky_frog_lite.Handlers.Company.{raised_absurd}
use milky_frog_lite.Prelude.{◌≡◌, true, Option, none, some, Bool-cases, inl, inr, ◌⊎◌, refl, sym}
use milky_frog_lite.Domain.Message.{ToolCall, ToolResult}
use milky_frog_lite.Registry
use milky_frog_lite.Registry.{ToolRegistry, Tool}
use milky_frog_lite.Events.{
  Raised, tool_run_cancelled, task_cancelled, error, Attempt, returned, raised,
}
use milky_frog_lite.Events.ToolStep.{
  ToolHost, ToolEnd, finishes, is_interrupted, breaks, attempt_of, Done, work_done, poll_done,
  both_done, run_cancellable, convert, waited, run_tool, execute_tool, extract_search_prefix,
  is_abandoned,
}

-- An attempt that the cancellation of the task ends only if something else holds.
abbrev EndsOnly : Type 0 → Attempt ToolResult → Type 0
EndsOnly P (returned r) = Unit
EndsOnly P (raised tool_run_cancelled) = Unit
EndsOnly P (raised task_cancelled) = P
EndsOnly P (raised (error _ _ _)) = Unit

convert_raises :
    (P : Type 0) (a : Attempt ToolResult) (e : Raised)
    → EndsOnly P a
    → convert a ≡ raised e
    → (e ≡ tool_run_cancelled) ⊎ ((e ≡ task_cancelled) × P)
unfolding convert
convert_raises P (returned r) e o h = absurd (raised_absurd (sym h))
convert_raises P (raised tool_run_cancelled) e o h = inl cc
convert_raises P (raised task_cancelled) e o h = inr (cc, o)
convert_raises P (raised (error name message upstream)) e o h = absurd (raised_absurd (sym h))

attempt_of-EndsOnly : (end : ToolEnd) → EndsOnly (end ≡ is_abandoned) (attempt_of end)
unfolding attempt_of
attempt_of-EndsOnly (finishes r) = tt
attempt_of-EndsOnly is_interrupted = tt
attempt_of-EndsOnly (breaks name message) = tt
attempt_of-EndsOnly is_abandoned = refl

run_cancellable-EndsOnly :
    (P : Type 0) (done : Done) (a : Attempt ToolResult)
    → EndsOnly P a
    → EndsOnly P (run_cancellable true done a)
unfolding run_cancellable
run_cancellable-EndsOnly P work_done a o = o
run_cancellable-EndsOnly P poll_done a o = tt
run_cancellable-EndsOnly P both_done a o = o

module _ {X : Type 0} (host : ToolHost X) (tools : ToolRegistry) (call : ToolCall) (x : X) where
  waited-EndsOnly : (end : ToolEnd) → EndsOnly (end ≡ is_abandoned) (waited host tools call x end)
  unfolding waited
  waited-EndsOnly end = elim (Bool-cases host.has_cancellation) [
    | inl e ↦
        rw (e, waited)
          (run_cancellable-EndsOnly (end ≡ is_abandoned) (host.done_first call x) _
            (attempt_of-EndsOnly end))
    | inr e ↦ rw (e, waited) (attempt_of-EndsOnly end)
  ]

  -- The Tool is there, and ended by the CancelledError of asyncio.
  abbrev pub IsAbandoned : Option Tool → Type 0
  IsAbandoned none = ⊥
  IsAbandoned (some tool) =
      (host.execute tool (extract_search_prefix call.arguments) call x).0 ≡ is_abandoned

  run_tool-EndsOnly :
      (found : Option Tool) → EndsOnly (IsAbandoned found) (run_tool host tools found call x).0
  unfolding run_tool
  run_tool-EndsOnly none = tt
  run_tool-EndsOnly (some tool) = waited-EndsOnly _

  -- The cooperative cancel, or the CancelledError that the Tool itself ended by.
  abbrev pub IsCancel : Raised → Type 0
  IsCancel e =
      (e ≡ tool_run_cancelled) ⊎ ((e ≡ task_cancelled) × IsAbandoned (Registry.get tools call.name))

  -- Whatever a Tool does, and whether or not it exists, running a call of it raises nothing but the
  -- cooperative cancel, and the CancelledError of asyncio if the Tool exists and ended by it: every
  -- other error is a result.
  pub execute_tool_raises :
      (e : Raised) → (execute_tool host tools call x).0 ≡ raised e → IsCancel e
  unfolding execute_tool
  execute_tool_raises e h =
      convert_raises _ _ e (run_tool-EndsOnly (Registry.get tools call.name)) h
