-- ===== src/Foreground/Idle.antt =====
-- In which state the session is left, whatever a foreground Run comes to.
use milky_frog_lite.Harness.{run}
use milky_frog_lite.Domain.Approval.{ApprovalVerdict}
use milky_frog_lite.Checkpoint.{StoredRun}
use milky_frog_lite.Domain.Run.{FilePath, RunResult}
use milky_frog_lite.Events.{
  Attempt, Raised, World, raised, returned, error, task_cancelled, tool_run_cancelled,
}
use milky_frog_lite.Snapshot.{Codec}
use milky_frog_lite.Prelude.{◌≡◌, Option, false, ℕ, String, some, List, none, refl, Dict}
use milky_frog_lite.Foreground.{
  ForegroundRun, Session, ForegroundHost, after_cancel, conclude_run, concluded, foreground,
  started, start_new, go_on_with, continue_with, respond_approval, respond_approvals, Option, Codec,
  ℕ, String, Raised, false, Attempt, StoredRun, List, FilePath, RunResult, some, ApprovalVerdict,
  Dict, run, busied, limit_of, request_for, cancellable,
}

-- Not busy, with no cancellation left over.
abbrev pub IsIdle : ForegroundRun → Type 0
IsIdle f = (f.busy ≡ false) × (f.has_cancellation ≡ false)

-- Idle; and of a result, the Run is the one that the session goes on with.
unfoldable pub LeavesIdle : {X : Type 0} → Option (Attempt RunResult × Session X) → Type 0
LeavesIdle none = Unit
LeavesIdle (some (returned r, s)) = IsIdle s.foreground × (s.foreground.run_id ≡ some r.run_id)
LeavesIdle (some (raised e, s)) = IsIdle s.foreground

module _ {X : Type 0} {codec : Codec} (host : ForegroundHost codec X) where
  after_cancel-LeavesIdle :
      (o : Option Raised × Session X) → LeavesIdle (some (after_cancel host o))
  unfolding after_cancel LeavesIdle
  after_cancel-LeavesIdle (none, s) = (refl, refl)
  after_cancel-LeavesIdle (some e, s) = (refl, refl)

  concluded-LeavesIdle :
      (f : ForegroundRun) (o : Option (Attempt RunResult × World X))
      → LeavesIdle (concluded host f o)
  unfolding concluded conclude_run LeavesIdle
  concluded-LeavesIdle f none = tt
  concluded-LeavesIdle f (some (returned r, w)) = ((refl, refl), refl)
  concluded-LeavesIdle f (some (raised task_cancelled, w)) = after_cancel-LeavesIdle _
  concluded-LeavesIdle f (some (raised tool_run_cancelled, w)) = (refl, refl)
  concluded-LeavesIdle f (some (raised (error _ _ _), w)) = (refl, refl)

  foreground-LeavesIdle :
      (id : Option String) (calls : Attempt ℕ)
      → (part : ℕ → World X → Option (Attempt RunResult × World X)) (s : Session X)
      → IsIdle s.foreground
      → LeavesIdle (foreground host id calls part s)
  unfolding foreground LeavesIdle
  foreground-LeavesIdle id (raised e) part s h = h
  foreground-LeavesIdle id (returned calls) part s h =
      concluded-LeavesIdle (busied host id s.foreground)
        (part (limit_of host s.foreground calls) (cancellable host s.world))

  started-LeavesIdle :
      (fuel : ℕ) (task : String) (skill : Option String) (skills : List String)
      → (workspace : Attempt FilePath) (s : Session X) → IsIdle s.foreground
      → LeavesIdle (started host fuel task skill skills workspace s)
  unfolding started LeavesIdle
  started-LeavesIdle fuel task skill skills (raised e) s h = h
  started-LeavesIdle fuel task skill skills (returned w) s h =
      foreground-LeavesIdle s.foreground.run_id (host.max_model_calls w s.world.outside)
        (λ limit v. run host.harness fuel (request_for host task w limit skill skills) v) s h

  go_on_with-LeavesIdle :
      (stored : Attempt StoredRun)
      → (part : StoredRun → ℕ → World X → Option (Attempt RunResult × World X)) (s : Session X)
      → IsIdle s.foreground
      → LeavesIdle (go_on_with host stored part s)
  unfolding go_on_with LeavesIdle
  go_on_with-LeavesIdle (raised e) part s h = h
  go_on_with-LeavesIdle (returned stored) part s h =
      foreground-LeavesIdle (some stored.run_id)
        (host.max_model_calls stored.workspace s.world.outside) (part stored) s h

  -- Whatever starting, continuing or answering a Run comes to, a result or any exception, an idle
  -- session is idle again, with no cancellation left over; and a result makes its Run the one that
  -- the session goes on with.
  pub foreground-IsIdle :
      (fuel : ℕ) (s : Session X)
      → IsIdle s.foreground
      → ((task : String) (workspace : Option FilePath) (skill : Option String)
            (skills : List String)
          → LeavesIdle (start_new host fuel task workspace skill skills s))
        × ((token : String) (prompt : Option String) (extra skills : Option (List String))
            → LeavesIdle (continue_with host fuel token prompt extra skills s))
        × ((token : String) (verdict : ApprovalVerdict)
            → LeavesIdle (respond_approval host fuel token verdict s))
        × ((token : String) (verdicts : Dict ApprovalVerdict)
            → LeavesIdle (respond_approvals host fuel token verdicts s))
  unfolding start_new continue_with respond_approval respond_approvals
  foreground-IsIdle fuel s h = (
    λ task workspace skill skills. started-LeavesIdle fuel task skill skills _ s h,
    λ token prompt extra skills. go_on_with-LeavesIdle _ _ s h,
    λ token verdict. go_on_with-LeavesIdle _ _ s h,
    λ token verdicts. go_on_with-LeavesIdle _ _ s h,
  )
