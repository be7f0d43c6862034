-- ===== src/Events/Loop/Landing.antt =====
-- What holds of the outside world when `advance` returns: the Handlers of the last signal leave it
-- so, and nothing of the loop comes after them.
use milky_frog_lite.Prelude.{
  ℕ, zero, suc, ◌-◌, ◌<◌, List, [], ◌∷◌, Option, none, some, ◌≡◌, ap, Bool-cases, inl, inr, subst,
  refl,
}
use milky_frog_lite.Domain.Run.{RunState, RunResult, Compacted}
use milky_frog_lite.Events.{
  Event, Raised, tool_run_cancelled, task_cancelled, error, Attempt, returned, raised, World,
  proceed, give,
}
use milky_frog_lite.Events.Hub.{broadcast}
use milky_frog_lite.Events.Emitter.{
  finish, finish_failed, finish_completed, finish_paused, finish_cancelled, finish_approval_needed,
}
use milky_frog_lite.Events.Loop.{
  continues, run_loop, resume_loop, conclude, handle, guarded, settle, settled, advance,
}
use milky_frog_lite.Events.Loop.Model.{LoopHost}
use milky_frog_lite.Events.Loop.Turn.{
  Step, next, stop, threw, Finish, as_completed, as_cancelled, as_waiting, as_paused, turn,
}
use milky_frog_lite.Events.Loop.Growth.{Evolves, Exits, stops, throws}
use milky_frog_lite.Events.Loop.Limit.{run_loop-IsLeft}
use milky_frog_lite.Events.Loop.Keeps.{IsKept, proceed-keeps, turn-keeps}
use milky_frog_lite.Events.Loop.Outcome.{
  Announces, completes, pauses, waits_for_approval, cancels, fails,
}

-- Of a result that is returned, and of the world it is returned in.
pub data Lands {X : Type 0} (S : RunResult → X → Type 0) : Attempt RunResult → X → Type 0 where
  lands : {r : RunResult} {x : X} → S r x → Lands S (returned r) x
  escapes : {e : Raised} {x : X} → Lands S (raised e) x

-- Of the world in which the loop was left, if it was.
abbrev OnLeft : {X : Type 0} → (X → Type 0) → Option (Step RunState × World X) → Type 0
OnLeft I none = Unit
OnLeft I (some (left, v)) = I v.outside

module _ {X : Type 0} (host : LoopHost X) (I : X → Type 0) (k : IsKept host I) where
  resume-OnLeft :
      (fuel limit : ℕ) (r : Step RunState) (v : World X)
      → I v.outside
      → ((t : RunState) (u : World X) → I u.outside → OnLeft I (run_loop host fuel limit t u))
      → OnLeft I (resume_loop host (r, v) (run_loop host fuel limit))
  resume-OnLeft fuel limit (next t) v i h = h t v i
  resume-OnLeft fuel limit (stop how t) v i h = i
  resume-OnLeft fuel limit (threw e t) v i h = i

  run_loop-OnLeft :
      (fuel limit : ℕ) (s : RunState) (w : World X)
      → I w.outside
      → OnLeft I (run_loop host fuel limit s w)
  unfolding run_loop
  run_loop-OnLeft zero limit s w i = tt
  run_loop-OnLeft (suc fuel) limit s w i = elim (Bool-cases (continues limit s)) [
    | inl h ↦
        rw (h, run_loop)
          (resume-OnLeft fuel limit (turn host s w).0 (turn host s w).1 (turn-keeps host I k s w i)
            (λ t u j. run_loop-OnLeft fuel limit t u j))
    | inr h ↦ rw (h, run_loop) i
  ]

module _ {X : Type 0} (host : LoopHost X) (I : X → Type 0) (k : IsKept host I)
    (S : RunResult → World X → Type 0) (t : RunState)
    (saves : (r : RunResult) (event : Event) (w : World X)
      → Announces t r event
      → I w.outside
      → (xs : List Compacted) → (broadcast host.hub event w).0 ≡ returned xs
      → S r (broadcast host.hub event w).1) where
  finished-Lands :
      (r : RunResult) (a : Attempt (List Compacted)) (v : World X)
      → ((xs : List Compacted) → a ≡ returned xs → S r v)
      → Lands S (proceed a v (λ _. give r)).0 (proceed a v (λ _. give r)).1
  unfolding proceed
  finished-Lands r (returned xs) v s = lands (s xs refl)
  finished-Lands r (raised e) v s = escapes

  -- The signal of a result leaves the world as it is wanted, and keeps what was kept.
  abbrev IsFine : Attempt RunResult × World X → Type 0
  IsFine o = Lands S o.0 o.1 × I o.1.outside

  pub finish-IsFine :
      (event : Event) (r : RunResult) (w : World X)
      → Announces t r event
      → I w.outside
      → IsFine (finish host.hub event r w)
  unfolding finish
  finish-IsFine event r w n i = (
    finished-Lands r (broadcast host.hub event w).0 (broadcast host.hub event w).1
        (saves r event w n i),
    proceed-keeps I _ _ _ (k.on_broadcast event w i) (λ _ _ j. j),
  )

  conclude-IsFine :
      (limit : ℕ) (how : Finish) (w : World X) → I w.outside → IsFine (conclude host limit how t w)
  unfolding conclude finish_completed finish_cancelled finish_approval_needed finish_paused
  conclude-IsFine limit (as_completed m) w i = finish-IsFine _ _ w (completes m) i
  conclude-IsFine limit as_cancelled w i = finish-IsFine _ _ w (cancels _) i
  conclude-IsFine limit (as_waiting []) w i = (escapes, i)
  conclude-IsFine limit (as_waiting (c ∷ cs)) w i = finish-IsFine _ _ w (waits_for_approval _) i
  conclude-IsFine limit as_paused w i = finish-IsFine _ _ w (pauses _) i

  handle-IsFine : (e : Raised) (w : World X) → I w.outside → IsFine (handle host e t w)
  unfolding handle finish_failed finish_cancelled
  handle-IsFine tool_run_cancelled w i = finish-IsFine _ _ w (fails _) i
  handle-IsFine (error name message upstream) w i = finish-IsFine _ _ w (fails _) i
  handle-IsFine task_cancelled w i = elim (Bool-cases (host.is_cancelled w.outside)) [
    | inl h ↦ rw (h, handle) (finish-IsFine _ _ w (cancels _) i)
    | inr h ↦ rw (h, handle) (escapes, i)
  ]

  guarded-IsFine :
      (a : Attempt RunResult) (v : World X) → IsFine (a, v) → IsFine (guarded host t (a, v))
  unfolding guarded
  guarded-IsFine (returned r) v h = h
  guarded-IsFine (raised e) v h = handle-IsFine e v h.1

  settle-IsFine :
      (limit : ℕ) (left : Step RunState) (v : World X)
      → Exits left t
      → I v.outside
      → IsFine (settle host limit (left, v))
  unfolding settle
  settle-IsFine limit (next _) v x i = elim x [ ]
  settle-IsFine limit (stop how _) v stops i = guarded-IsFine _ _ (conclude-IsFine limit how v i)
  settle-IsFine limit (threw e _) v throws i = handle-IsFine e v i

-- With a limit, and fuel for what the limit leaves: if the Handlers, the model and the Tools keep a
-- property of the outside world, and the Handlers of a terminal signal leave the world as it is
-- wanted for the result it carries, then so does `advance`, for a state that grew out of the first.
pub advance-Lands :
    {X : Type 0} (host : LoopHost X) (I : X → Type 0)
    → IsKept host I
    → (S : RunState → RunResult → World X → Type 0) (fuel limit : ℕ) (s : RunState) (w : World X)
    → ((t : RunState) (n : ℕ)
        → Evolves s t n
        → (r : RunResult) (event : Event) (v : World X) → Announces t r event
        → I v.outside
        → (xs : List Compacted) → (broadcast host.hub event v).0 ≡ returned xs
        → S t r (broadcast host.hub event v).1)
    → 0 < limit
    → limit - s.completed_model_calls < fuel
    → I w.outside
    → (t : RunState) × ((n : ℕ) × Evolves s t n)
      × ((o : Attempt RunResult × World X) × (advance host fuel limit s w ≡ some o)
          × Lands (S t) o.0 o.1)
unfolding advance
advance-Lands host I k S fuel limit s w saves p f i =
    let h = run_loop-IsLeft host limit fuel s w p f in
    let j = subst (OnLeft I) h.ended (run_loop-OnLeft host I k fuel limit s w i) in
    (
      h.final,
      h.grown,
      (
        settle host limit (h.left, h.world),
        ap (settled host limit) h.ended,
        (settle-IsFine host I k (S h.final) h.final (saves h.final h.grown.0 h.grown.1) limit h.left
            h.world h.exits j).0,
      ),
    )
