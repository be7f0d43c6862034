-- ===== src/Foreground/Recorded.antt =====
-- What a session returns is in the store.
use milky_frog_lite.Handlers.Broadcasts.{IsConcluded}
use milky_frog_lite.Domain.Approval.{ApprovalVerdict}
use milky_frog_lite.Transcript.Roles.{IsTranscript}
use milky_frog_lite.Harness.Durable.{with_checkpoints, StartedFrom, run-IsSaved}
use milky_frog_lite.Harness.{run}
use milky_frog_lite.Domain.Message.{ToolCall}
use milky_frog_lite.Registry.{Tool}
use milky_frog_lite.Checkpoint.{StoredRun, load_state}
use milky_frog_lite.Handlers.Company.{raised_absurd, IsQuietHub, HasRow}
use milky_frog_lite.Events.Loop.Landing.{Lands}
use milky_frog_lite.Domain.Run.{RunResult, RunState, FilePath, ModelRequest}
use milky_frog_lite.Prelude.{
  Bool, Bool-cases, inl, inr, Option, ◌≡◌, some, ap, String, ℕ, false, none, List, subst, refl,
  if◌then◌else◌, sym, ◌<◌, ok, Dict,
}
use milky_frog_lite.Events.{
  Attempt, returned, World, raised, Raised, error, task_cancelled, tool_run_cancelled,
}
use milky_frog_lite.Handlers.{Store}
use milky_frog_lite.Snapshot.{Codec}
use milky_frog_lite.Foreground.{
  Session, ForegroundHost, ForegroundRun, conclude_run, concluded, foreground, started, start_new,
  go_on_with, continue_with, respond_approval, respond_approvals, request_for, cancellable, busied,
  Codec, stored_for, must_wait, after_cancel, Attempt, Option, RunResult, some, StoredRun, ℕ,
  String, shutdown, false, List, run, ok, ApprovalVerdict, Dict,
}
use milky_frog_lite.Events.Hub.{EventHub}
use milky_frog_lite.Harness.Saved.{resume-IsSaved, ResumedFrom}
use milky_frog_lite.Harness.Host.{repaired, reskilled, is_awaiting}

-- The session goes on with the Run of its result, which the store holds as it is told.
abbrev pub Recorded :
    {X : Type 0} {codec : Codec}
    → Store codec X
    → (RunState → Type 0)
    → Attempt RunResult × Session X
    → Type 0
Recorded store Grown (returned r, t) =
    (t.foreground.run_id ≡ some r.run_id) × IsConcluded store Grown r t.world
Recorded store Grown (raised e, t) = Unit

abbrev pub EndsRecorded :
    {X : Type 0} {codec : Codec}
    → Store codec X
    → (RunState → Type 0)
    → Option (Attempt RunResult × Session X)
    → Type 0
EndsRecorded {X} store Grown end =
    (o : Attempt RunResult × Session X) × (end ≡ some o) × Recorded store Grown o

module _ {X : Type 0} {codec : Codec} (host : ForegroundHost codec X)
    (Grown : RunState → Type 0) where
  cancelled-Recorded :
      (o : Option Raised × Session X) → Recorded host.harness.store Grown (after_cancel host o)
  unfolding after_cancel
  cancelled-Recorded (none, s) = tt
  cancelled-Recorded (some e, s) = tt

  conclude_run-Recorded :
      (f : ForegroundRun) (a : Attempt RunResult) (w : World X)
      → Lands (IsConcluded host.harness.store Grown) a w
      → Recorded host.harness.store Grown (conclude_run host f (a, w))
  unfolding conclude_run
  conclude_run-Recorded f (returned r) w (Lands.lands l) = (refl, l)
  conclude_run-Recorded f (raised task_cancelled) w Lands.escapes =
      cancelled-Recorded (shutdown host (record { foreground = f; world = w }))
  conclude_run-Recorded f (raised tool_run_cancelled) w Lands.escapes = tt
  conclude_run-Recorded f (raised (error _ _ _)) w Lands.escapes = tt

  -- What comes of a part of the Harness, and is in the store.
  abbrev Ends : Option (Attempt RunResult × World X) → Type 0
  Ends end =
      (o : Attempt RunResult × World X) × (end ≡ some o)
      × Lands (IsConcluded host.harness.store Grown) o.0 o.1

  weaken :
      (Before : RunState → Type 0)
      → ((t : RunState) → Before t → Grown t)
      → (a : Attempt RunResult) (w : World X) → Lands (IsConcluded host.harness.store Before) a w
      → Lands (IsConcluded host.harness.store Grown) a w
  weaken Before f (returned r) w (Lands.lands l) = Lands.lands (record {
    state = l.state;
    grown = f l.state l.grown;
    before = l.before;
    event = l.event;
    last = l.last;
    announced = l.announced;
    saved = l.saved;
  })
  weaken Before f (raised e) w Lands.escapes = Lands.escapes

  Ends-weaken :
      (Before : RunState → Type 0)
      → ((t : RunState) → Before t → Grown t)
      → (end : Option (Attempt RunResult × World X))
      → ((o : Attempt RunResult × World X) × (end ≡ some o)
          × Lands (IsConcluded host.harness.store Before) o.0 o.1)
      → Ends end
  Ends-weaken Before f end (o, e, l) = (o, e, weaken Before f o.0 o.1 l)

  concluded-EndsRecorded :
      (f : ForegroundRun) (end : Option (Attempt RunResult × World X))
      → Ends end
      → EndsRecorded host.harness.store Grown (concluded host f end)
  unfolding concluded
  concluded-EndsRecorded f end (o, e, l) =
      (conclude_run host f o, ap (concluded host f) e, conclude_run-Recorded f o.0 o.1 l)

  foreground-EndsRecorded :
      (id : Option String) (calls : Attempt ℕ)
      → (part : ℕ → World X → Option (Attempt RunResult × World X)) (s : Session X)
      → s.foreground.interactive ≡ false
      → ((n : ℕ) → calls ≡ returned n → Ends (part n (cancellable host s.world)))
      → EndsRecorded host.harness.store Grown (foreground host id calls part s)
  unfolding foreground
  foreground-EndsRecorded id (raised e) part s i h = ((raised e, s), refl, tt)
  foreground-EndsRecorded id (returned n) part s i h =
      concluded-EndsRecorded (busied host id s.foreground) _ (
        subst (λ b. Ends (part (if b then 0 else n) (cancellable host s.world))) (sym i) (h n refl))

  started-EndsRecorded :
      (fuel : ℕ) (task : String) (skill : Option String) (skills : List String)
      → (workspace : Attempt FilePath) (s : Session X) → s.foreground.interactive ≡ false
      → ((path : FilePath) (n : ℕ)
          → host.max_model_calls path s.world.outside ≡ returned n
          → Ends (
              run host.harness fuel
                (request_for host task path n skill skills)
                (cancellable host s.world)))
      → EndsRecorded host.harness.store Grown (started host fuel task skill skills workspace s)
  unfolding started
  started-EndsRecorded fuel task skill skills (raised e) s i h = ((raised e, s), refl, tt)
  started-EndsRecorded fuel task skill skills (returned path) s i h =
      foreground-EndsRecorded s.foreground.run_id (host.max_model_calls path s.world.outside)
        (λ limit v. run host.harness fuel (request_for host task path limit skill skills) v) s i
        (h path)

  go_on_with-EndsRecorded :
      (stored : Attempt StoredRun)
      → (part : StoredRun → ℕ → World X → Option (Attempt RunResult × World X)) (s : Session X)
      → s.foreground.interactive ≡ false
      → ((x : StoredRun) (n : ℕ)
          → stored ≡ returned x
          → host.max_model_calls x.workspace s.world.outside ≡ returned n
          → Ends (part x n (cancellable host s.world)))
      → EndsRecorded host.harness.store Grown (go_on_with host stored part s)
  unfolding go_on_with
  go_on_with-EndsRecorded (raised e) part s i h = ((raised e, s), refl, tt)
  go_on_with-EndsRecorded (returned x) part s i h =
      foreground-EndsRecorded (some x.run_id) (host.max_model_calls x.workspace s.world.outside)
        (part x) s i (λ n. h x n refl)

module _ {X : Type 0} {codec : Codec} (host : ForegroundHost codec X) (others : EventHub X)
    (quiet : IsQuietHub host.harness.store others)
    (on_execute : (id workspace : String) (tool : Tool) (prefix : String) (call : ToolCall) (x : X)
      → HasRow host.harness.store id workspace x
      → HasRow host.harness.store id workspace
          (host.harness.loop.tool_host.execute tool prefix call x).1)
    (on_stream : (id workspace : String) (request : ModelRequest) (x : X)
      → HasRow host.harness.store id workspace x
      → HasRow host.harness.store id workspace (host.harness.loop.after_stream request x)) where
  abbrev pub attached : ForegroundHost codec X
  attached = record host { harness = with_checkpoints host.harness others quiet }

  waited_stored :
      (a : Attempt StoredRun) (x : StoredRun) → must_wait host a ≡ returned x → a ≡ returned x
  unfolding must_wait
  waited_stored (raised e) x h = h
  waited_stored (returned y) x h = elim (Bool-cases (is_awaiting y.status)) [
    | inl e ↦ rw (e, must_wait) at h
    | inr e ↦ absurd (raised_absurd (rw (e, must_wait) at h))
  ]

  -- A state that grew out of the first one of the Run of a task.
  abbrev pub TaskFrom : Session X → String → Option String → List String → RunState → Type 0
  TaskFrom s task skill skills t =
      (path : FilePath) × (n : ℕ) × StartedFrom host.harness others quiet
        (request_for attached task path n skill skills) (cancellable attached s.world) t

  -- A state that grew out of the stored one of the Run that a token stands for.
  abbrev pub TokenFrom : Session X → String → (Bool → RunState → RunState) → RunState → Type 0
  TokenFrom s token prepare t =
      (x : StoredRun) × (stored_for attached token s ≡ returned x)
      × ResumedFrom host.harness others quiet on_execute on_stream x.run_id prepare
          (cancellable attached s.world) t

  -- A session that is not interactive, with limits that are positive and fuel for them: starting,
  -- continuing and answering a Run end, and a result is that of the Run which the session goes on
  -- with, the last signal that was broadcast is the terminal one of a state that grew out of the
  -- first one of the task, or out of the stored one, and carries that result, and both the result
  -- and this state are in the store, if every state that was stored is well formed. The Handlers beside the one that writes the checkpoints leave the store
  -- alone, and the model and the Tools keep the rows of the Runs.
  pub foreground-IsRecorded :
      (fuel : ℕ) (s : Session X)
      → s.foreground.interactive ≡ false
      → ((path : FilePath) (n : ℕ)
          → host.max_model_calls path s.world.outside ≡ returned n
          → (0 < n) × (n < fuel))
      → ((id : String) (t : RunState)
          → load_state codec (host.harness.store.rows_of (host.new_cancellation s.world.outside)) id
            ≡ ok t
          → IsTranscript t.messages)
      → ((task : String) (workspace : Option FilePath) (skill : Option String)
            (skills : List String)
          → EndsRecorded host.harness.store
              (TaskFrom s task skill skills)
              (start_new attached fuel task workspace skill skills s))
        × ((token : String) (prompt : Option String) (extra skills : Option (List String))
            → EndsRecorded host.harness.store
                (TokenFrom s token
                  (λ awaiting u. repaired awaiting prompt (reskilled extra skills u)))
                (continue_with attached fuel token prompt extra skills s))
        × ((token : String) (verdict : ApprovalVerdict)
            → EndsRecorded host.harness.store
                (TokenFrom s token (λ _ u. u))
                (respond_approval attached fuel token verdict s))
        × ((token : String) (verdicts : Dict ApprovalVerdict)
            → EndsRecorded host.harness.store
                (TokenFrom s token (λ _ u. u))
                (respond_approvals attached fuel token verdicts s))
  unfolding start_new continue_with respond_approval respond_approvals
  foreground-IsRecorded fuel s i limits well = (
    λ task workspace skill skills.
        started-EndsRecorded attached (TaskFrom s task skill skills) fuel task skill skills _ s i
          (λ path n e.
            Ends-weaken attached (TaskFrom s task skill skills) _ (λ t g. (path, n, g)) _
              (run-IsSaved host.harness others quiet on_stream on_execute fuel
                (request_for attached task path n skill skills) _ (limits path n e).0
                (limits path n e).1)),
    λ token prompt extra skills.
        let Grown =
          TokenFrom s token (λ awaiting u. repaired awaiting prompt (reskilled extra skills u)) in
        go_on_with-EndsRecorded attached Grown _ _ s i (λ x n f e.
          Ends-weaken attached Grown _ (λ t g. (x, f, g)) _
            ((resume-IsSaved host.harness others quiet on_execute on_stream x.run_id fuel n _
                (limits x.workspace n e).0 (limits x.workspace n e).1 (well x.run_id)).0
              prompt extra skills)),
    λ token verdict.
        let Grown = TokenFrom s token (λ _ u. u) in
        go_on_with-EndsRecorded attached Grown _ _ s i (λ x n f e.
          Ends-weaken attached Grown _
            (λ t g. (x, waited_stored (stored_for attached token s) x f, g)) _
            ((resume-IsSaved host.harness others quiet on_execute on_stream x.run_id fuel n _
                (limits x.workspace n e).0 (limits x.workspace n e).1 (well x.run_id)).2
              verdict)),
    λ token verdicts.
        let Grown = TokenFrom s token (λ _ u. u) in
        go_on_with-EndsRecorded attached Grown _ _ s i (λ x n f e.
          Ends-weaken attached Grown _
            (λ t g. (x, waited_stored (stored_for attached token s) x f, g)) _
            ((resume-IsSaved host.harness others quiet on_execute on_stream x.run_id fuel n _
                (limits x.workspace n e).0 (limits x.workspace n e).1 (well x.run_id)).1
              verdicts)),
  )
