-- ===== src/Events/Loop/Outcome.antt =====
-- How `advance` ends: what it returns was broadcast last, with the state that the Run was left in.
use milky_frog_lite.Prelude.{
  ℕ, ◌-◌, ◌≤◌, ◌<◌, String, List, [], ◌∷◌, ◌++◌, some, ◌≡◌, refl, sym, ap, ◌∙◌, subst, max,
  Bool-cases, inl, inr,
}
use milky_frog_lite.Domain.Run.{
  RunState, RunResult, Compacted, completed, failed, cancelled, paused_limit, waiting_for_approval,
}
use milky_frog_lite.Events.{
  Event, Raised, tool_run_cancelled, task_cancelled, error, Attempt, returned, raised, World,
  proceed, give, run_completed, run_paused, run_cancelled, run_failed,
}
use milky_frog_lite.Events.Hub.{
  EventHub, Registration, deliver, broadcast, call_handler, record_event,
}
use milky_frog_lite.Events.Emitter.{
  result_of, finish, finish_failed, finish_completed, finish_paused, finish_cancelled,
  finish_approval_needed,
}
use milky_frog_lite.Events.Loop.{conclude, handle, guarded, settle, settled, advance, next}
use milky_frog_lite.Events.Loop.Model.{LoopHost}
use milky_frog_lite.Events.Loop.Turn.{
  Step, stop, threw, Finish, as_completed, as_cancelled, as_waiting, as_paused,
}
use milky_frog_lite.Events.Loop.Growth.{Evolves, Exits, stops, throws}
use milky_frog_lite.Events.Loop.Limit.{run_loop-IsLeft}

-- The terminal signals of a state, each with the result it carries.
pub data Announces (t : RunState) : RunResult → Event → Type 0 where
  completes :
      (m : String)
      → Announces t (result_of t completed m) (run_completed t.run_id (result_of t completed m) t)
  pauses :
      (m : String)
      → Announces t
          (result_of t paused_limit m)
          (run_paused t.run_id (result_of t paused_limit m) t)
  waits_for_approval :
      (m : String)
      → Announces t
          (result_of t waiting_for_approval m)
          (run_paused t.run_id (result_of t waiting_for_approval m) t)
  cancels :
      (m : String)
      → Announces t (result_of t cancelled m) (run_cancelled t.run_id (result_of t cancelled m) t)
  fails :
      (m : String)
      → Announces t (result_of t failed m) (run_failed t.run_id (result_of t failed m) t)

-- A result is the one that the last signal carries; an exception leaves nothing to say.
pub data Reports (t : RunState) : Attempt RunResult → List Event → Type 0 where
  reported :
      {r : RunResult} {event : Event} (before : List Event)
      → Announces t r event
      → Reports t (returned r) (before ++ event ∷ [])
  escaped : {e : Raised} {events : List Event} → Reports t (raised e) events

module _ {X : Type 0} where
  proceed-events :
      {A B : Type 0} (a : Attempt A) (v : World X) (f : A → World X → Attempt B × World X)
      → ((x : A) → (f x v).1.events ≡ v.events)
      → (proceed a v f).1.events ≡ v.events
  unfolding proceed
  proceed-events (returned a) v f h = h a
  proceed-events (raised e) v f h = refl

  deliver-events :
      (event : Event) (rs : List (Registration X)) (w : World X)
      → (deliver event rs w).1.events ≡ w.events
  unfolding deliver
  deliver-events event [] w = refl
  deliver-events event (r ∷ rs) w =
      proceed-events (call_handler event r w).0 (call_handler event r w).1 _ (λ o.
        proceed-events (deliver event rs (call_handler event r w).1).0
          (deliver event rs (call_handler event r w).1).1 _ (λ _. refl)
        ∙ deliver-events event rs (call_handler event r w).1)

  -- A broadcast adds its signal to what was broadcast, and its Handlers add none.
  pub broadcast-events :
      (hub : EventHub X) (event : Event) (w : World X)
      → (broadcast hub event w).1.events ≡ w.events ++ event ∷ []
  unfolding broadcast
  broadcast-events hub event w = deliver-events event _ (record_event event w)

  finished :
      {t : RunState} {result : RunResult} {event : Event} (before : List Event)
      → Announces t result event
      → (a : Attempt (List Compacted)) (v : World X) → v.events ≡ before ++ event ∷ []
      → Reports t (proceed a v (λ _. give result)).0 (proceed a v (λ _. give result)).1.events
  unfolding proceed
  finished {t} {result} before n (returned _) v h =
      subst (Reports t (returned result)) (sym h) (reported before n)
  finished before n (raised e) v h = escaped

module _ {X : Type 0} (hub : EventHub X) where
  pub finish-Reports :
      {t : RunState} (event : Event) (result : RunResult) (w : World X)
      → Announces t result event
      → Reports t (finish hub event result w).0 (finish hub event result w).1.events
  unfolding finish
  finish-Reports event result w n =
      finished w.events n (broadcast hub event w).0 (broadcast hub event w).1
        (broadcast-events hub event w)

module _ {X : Type 0} (host : LoopHost X) where
  conclude-Reports :
      (limit : ℕ) (how : Finish) (t : RunState) (w : World X)
      → Reports t (conclude host limit how t w).0 (conclude host limit how t w).1.events
  unfolding conclude finish_completed finish_cancelled finish_approval_needed finish_paused
  conclude-Reports limit (as_completed m) t w = finish-Reports host.hub _ _ w (completes m)
  conclude-Reports limit as_cancelled t w = finish-Reports host.hub _ _ w (cancels _)
  conclude-Reports limit (as_waiting []) t w = escaped
  conclude-Reports limit (as_waiting (c ∷ cs)) t w =
      finish-Reports host.hub _ _ w (waits_for_approval _)
  conclude-Reports limit as_paused t w = finish-Reports host.hub _ _ w (pauses _)

  handle-Reports :
      (e : Raised) (t : RunState) (w : World X)
      → Reports t (handle host e t w).0 (handle host e t w).1.events
  unfolding handle finish_failed finish_cancelled
  handle-Reports tool_run_cancelled t w = finish-Reports host.hub _ _ w (fails _)
  handle-Reports (error name message upstream) t w = finish-Reports host.hub _ _ w (fails _)
  handle-Reports task_cancelled t w = elim (Bool-cases (host.is_cancelled w.outside)) [
    | inl h ↦ rw (h, handle) (finish-Reports host.hub _ _ w (cancels _))
    | inr h ↦ rw (h, handle) escaped
  ]

  guarded-Reports :
      (t : RunState) (a : Attempt RunResult) (v : World X)
      → Reports t a v.events
      → Reports t (guarded host t (a, v)).0 (guarded host t (a, v)).1.events
  unfolding guarded
  guarded-Reports t (returned r) v h = h
  guarded-Reports t (raised e) v h = handle-Reports e t v

  settle-Reports :
      (limit : ℕ) {t : RunState} (left : Step RunState) (v : World X)
      → Exits left t
      → Reports t (settle host limit (left, v)).0 (settle host limit (left, v)).1.events
  unfolding settle
  settle-Reports limit (next t) v x = elim x [ ]
  settle-Reports limit (stop how t) v stops = guarded-Reports t _ _ (conclude-Reports limit how t v)
  settle-Reports limit (threw e t) v throws = handle-Reports e t v

  -- With a limit, and fuel for what the limit leaves, `advance` ends. The state it ends in grew out
  -- of the first one by responses, results, synthesized calls and compactions only; its responses
  -- stay within the limit, unless there were more at the start; and if `advance` returns a result,
  -- the last signal broadcast is the terminal one of that state and carries that result.
  pub advance-Reports :
      (fuel limit : ℕ) (s : RunState) (w : World X)
      → 0 < limit
      → limit - s.completed_model_calls < fuel
      → (final : RunState) × ((o : Attempt RunResult × World X) × (advance host fuel limit s w
            ≡ some o)
          × Reports final o.0 o.1.events)
        × ((n : ℕ) × Evolves s final n)
        × (final.completed_model_calls ≤ max limit s.completed_model_calls)
  unfolding advance
  advance-Reports fuel limit s w p f =
      let h = run_loop-IsLeft host limit fuel s w p f in
      (
        h.final,
        (
          settle host limit (h.left, h.world),
          ap (settled host limit) h.ended,
          settle-Reports limit h.left h.world h.exits,
        ),
        h.grown,
        h.bound,
      )
