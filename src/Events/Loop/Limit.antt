-- ===== src/Events/Loop/Limit.antt =====
-- The loop as a whole: it ends within its limit, and what it did to the state of the Run.
use milky_frog_lite.Prelude.{
  ℕ, zero, suc, ◌+◌, ◌-◌, ◌≤◌, ◌<◌, true, Option, some, ◌≡◌, refl, arith, Bool-cases, max, inl, inr,
}
use milky_frog_lite.Domain.Run.{RunState}
use milky_frog_lite.Events.{World}
use milky_frog_lite.Events.Loop.{continues, run_loop, resume_loop}
use milky_frog_lite.Events.Loop.Model.{LoopHost}
use milky_frog_lite.Events.Loop.Turn.{Step, next, stop, threw, turn, as_paused}
use milky_frog_lite.Events.Loop.Growth.{
  Evolves, here, Evolves-calls, Evolves-trans, Leaves, Exits, stops, throws,
}
use milky_frog_lite.Events.Loop.Bound.{turn-Leaves, Within}

-- The loop was left, with a state that grew out of the first one and has no more responses than
-- the limit, unless the first one had.
pub record IsLeft {X : Type 0} (limit : ℕ) (s : RunState) (o : Option (Step RunState × World X))
    : Type 0 where
  pub final : RunState
  pub left : Step RunState
  pub world : World X
  pub ended : o ≡ some (left, world)
  pub exits : Exits left final
  pub grown : (n : ℕ) × Evolves s final n
  pub bound : final.completed_model_calls ≤ max limit s.completed_model_calls

continues-lt :
    (limit : ℕ) (state : RunState)
    → 0 < limit
    → continues limit state ≡ true
    → state.completed_model_calls < limit
unfolding continues
continues-lt limit state p h = ground arith

Within-bound :
    (limit : ℕ) {s t : RunState}
    → s.completed_model_calls < limit
    → Within s t
    → ((n : ℕ) × Evolves s t n) × (t.completed_model_calls ≤ max limit s.completed_model_calls)
Within-bound limit lt (inl e) = let h = Evolves-calls e in ((0, e), ground arith)
Within-bound limit lt (inr e) = let h = Evolves-calls e in ((1, e), ground arith)

module _ {X : Type 0} (host : LoopHost X) (limit : ℕ) where
  Exits-IsLeft :
      {s t : RunState} (left : Step RunState) (v : World X)
      → Exits left t
      → s.completed_model_calls < limit
      → Within s t
      → IsLeft limit s (some (left, v))
  Exits-IsLeft {s} {t} left v x lt e = record {
    final = t;
    left = left;
    world = v;
    ended = refl;
    exits = x;
    grown = (Within-bound limit lt e).0;
    bound = (Within-bound limit lt e).1;
  }

  resume-IsLeft :
      (fuel : ℕ) (s : RunState) (r : Step RunState) (v : World X)
      → s.completed_model_calls < limit
      → Leaves (λ (t : RunState). Evolves s t 1) (Within s) r
      → ((t : RunState) (u : World X)
          → t.completed_model_calls ≡ s.completed_model_calls + 1
          → IsLeft limit t (run_loop host fuel limit t u))
      → IsLeft limit s (resume_loop host (r, v) (run_loop host fuel limit))
  unfolding Leaves
  resume-IsLeft fuel s (stop how t) v lt e ih = Exits-IsLeft (stop how t) v stops lt e
  resume-IsLeft fuel s (threw x t) v lt e ih = Exits-IsLeft (threw x t) v throws lt e
  resume-IsLeft fuel s (next t) v lt e ih =
      let h = Evolves-calls e in
      let rest = ih t v h in
      let b = rest.bound in
      record {
        final = rest.final;
        left = rest.left;
        world = rest.world;
        ended = rest.ended;
        exits = rest.exits;
        grown = Evolves-trans e rest.grown.1;
        bound = ground arith;
      }

  -- With a limit, and fuel for what the limit leaves, the loop ends: its state grew by responses,
  -- results, synthesized calls and compactions only, and the responses of the model stay within
  -- the limit, unless there were more at the start.
  pub run_loop-IsLeft :
      (fuel : ℕ) (s : RunState) (w : World X)
      → 0 < limit
      → limit - s.completed_model_calls < fuel
      → IsLeft limit s (run_loop host fuel limit s w)
  unfolding run_loop
  run_loop-IsLeft zero s w p f = absurd (omega arith)
  run_loop-IsLeft (suc fuel) s w p f = elim (Bool-cases (continues limit s)) [
    | inl h ↦
        let lt = continues-lt limit s p h in
        rw (h, run_loop)
          (resume-IsLeft fuel s (turn host s w).0 (turn host s w).1 lt (turn-Leaves host s w)
            (λ t u e. run_loop-IsLeft fuel t u p (omega arith)))
    | inr h ↦
        rw (h, run_loop)
          (record {
            final = s;
            left = stop as_paused s;
            world = w;
            ended = refl;
            exits = stops;
            grown = (0, here);
            bound = ground arith;
          })
  ]
