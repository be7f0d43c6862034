-- ===== src/Harness/Durable.antt =====
-- What the store holds when an entry point of the Harness returns.
use milky_frog_lite.Transcript.{start_run}
use milky_frog_lite.Checkpoint.{find_row, create_run, Row, StoredRun, fresh_run}
use milky_frog_lite.Approvals.{Applied, prepared, halted}
use milky_frog_lite.Events.Loop.Landing.{Lands, advance-Lands, lands, escapes}
use milky_frog_lite.Events.Loop.{advance}
use milky_frog_lite.Events.Loop.Growth.{
  Evolves, GrowsInto, Evolves-IsExtension, Evolves-IsTranscript,
}
use milky_frog_lite.Transcript.Roles.{IsTranscript}
use milky_frog_lite.Events.{World, Attempt, proceed, returned, Effect, raised, Raised}
use milky_frog_lite.Handlers.Broadcasts.{broadcast-HasRow, IsConcluded, broadcast-IsConcluded}
use milky_frog_lite.Events.Loop.Keeps.{IsKept}
use milky_frog_lite.Domain.Message.{ToolCall}
use milky_frog_lite.Registry.{Tool}
use milky_frog_lite.Domain.Run.{ModelRequest, RunState, RunResult, FilePath, RunRequest, new_state}
use milky_frog_lite.Prelude.{
  String, ℕ, ◌<◌, ◌≡◌, some, subst₂, sym, arith, List, Option, none, refl, str_eq, true, ◌++◌, ◌∷◌,
  ap, [], ◌∙◌, Bool-cases, inl, inr, eq_refl, Bool, false,
}
use milky_frog_lite.Events.Loop.Model.{LoopHost}
use milky_frog_lite.Handlers.Company.{IsQuietHub, HasRow, raised_absurd}
use milky_frog_lite.Handlers.{Store, register}
use milky_frog_lite.Snapshot.{Codec, dump_run_state}
use milky_frog_lite.Events.Hub.{EventHub}
use milky_frog_lite.Harness.{
  Codec, Store, LoopHost, String, ToolCall, ℕ, World, advance, some, create_run, Applied,
  prepare_claimed, List, Option, none, start_run, writing, str_eq, true, [], checked, make_sandbox,
  load_budget, config_error, prepare_run, claiming, go_on, run, loop_for, Bool,
}
use milky_frog_lite.Harness.Host.{HarnessHost, seeded}

module _ {X : Type 0} {codec : Codec} (store : Store codec X) (others : EventHub X)
    (quiet : IsQuietHub store others) where
  -- A loop whose hub has the Handler of the checkpoints, beside others.
  abbrev pub checkpointed : LoopHost X → LoopHost X
  checkpointed loop = record loop { hub = register codec store others }

  module _ (loop : LoopHost X)
      (on_stream : (id workspace : String) (request : ModelRequest) (x : X)
        → HasRow store id workspace x
        → HasRow store id workspace (loop.after_stream request x))
      (on_execute : (id workspace : String) (tool : Tool) (prefix : String) (call : ToolCall)
          (x : X)
        → HasRow store id workspace x
        → HasRow store id workspace (loop.tool_host.execute tool prefix call x).1) where
    pub checkpointed-IsKept :
        (id workspace : String) → IsKept (checkpointed loop) (HasRow store id workspace)
    checkpointed-IsKept id workspace = record {
      on_broadcast = broadcast-HasRow store id workspace others quiet;
      on_stream = on_stream id workspace;
      on_execute = on_execute id workspace;
    }

    pub advance-IsSaved :
        (Grown : RunState → Type 0) (fuel limit : ℕ) (s : RunState) (w : World X)
        → GrowsInto Grown s
        → IsTranscript s.messages
        → 0 < limit
        → limit < fuel
        → HasRow store s.run_id s.workspace w.outside
        → (t : RunState) × ((n : ℕ) × Evolves s t n)
          × ((o : Attempt RunResult × World X) × (advance (checkpointed loop) fuel limit s w
                ≡ some o)
              × Lands (IsConcluded store Grown) o.0 o.1)
    advance-IsSaved Grown fuel limit s w grows p pos enough h =
        advance-Lands (checkpointed loop) (HasRow store s.run_id s.workspace)
          (checkpointed-IsKept s.run_id s.workspace) (λ _. IsConcluded store Grown) fuel limit s w
          (λ t n g r event v a i xs e.
            let x = Evolves-IsExtension g in
            broadcast-IsConcluded store Grown others quiet t r event v (grows t n g) a
              (Evolves-IsTranscript g p)
              (subst₂ (λ id ws. HasRow store id ws v.outside) (sym x.same_run)
                (sym x.same_workspace) i)
              xs e)
          pos (omega arith) h

pub not_none : {A : Type 0} (x : A) → some x ≡ none → ⊥
not_none x h = cc

checked_keeps :
    {X : Type 0} {codec : Codec} (host : HarnessHost codec X) (e : Option Raised) (w : World X)
    → (checked host e w).1 ≡ w
unfolding checked
checked_keeps host none w = refl
checked_keeps host (some e) w = refl

find_row-last :
    {codec : Codec} (rows : List (Row codec)) (r : Row codec) (id : String)
    → find_row codec rows id ≡ none
    → str_eq r.stored.run_id id ≡ true
    → find_row codec (rows ++ r ∷ []) id ≡ some r
unfolding find_row
find_row-last [] r id h e = rw e refl
find_row-last (x ∷ rows) r id h e = elim (Bool-cases (str_eq x.stored.run_id id)) [
  | inl s ↦ absurd (not_none x (rw s at h))
  | inr s ↦ rw s (find_row-last rows r id (rw s at h) e)
]

pub make_sandbox_keeps :
    {X : Type 0} {codec : Codec} (host : HarnessHost codec X) (workspace : FilePath) (w : World X)
    → (make_sandbox host workspace w).1 ≡ w
unfolding make_sandbox
make_sandbox_keeps host workspace w = checked_keeps host (host.sandbox_error workspace w.outside) w

pub load_budget_keeps :
    {X : Type 0} {codec : Codec} (host : HarnessHost codec X) (workspace : FilePath) (w : World X)
    → (load_budget host workspace w).1 ≡ w
unfolding load_budget
load_budget_keeps host workspace w =
    checked_keeps host (config_error host host.loop.budget workspace) w

module _ {X : Type 0} {codec : Codec} where
  created-HasRow :
      (host : HarnessHost codec X) (id : String) (workspace : FilePath) (w : World X)
      → (o : Option (Row codec)) → find_row codec (host.store.rows_of w.outside) id ≡ o
      → (stored : StoredRun)
      → (writing host (λ rows now. create_run codec rows now id workspace) w).0 ≡ returned stored
      → HasRow host.store id workspace
          (writing host (λ rows now. create_run codec rows now id workspace) w).1.outside
  unfolding create_run
  created-HasRow host id workspace w none e stored h =
      rw (e, create_run)
        record {
          row = record {
            stored = fresh_run codec (host.store.now w.outside) id workspace;
            state_json = dump_run_state codec (new_state id workspace);
          };
          found =
              ap (λ rows. find_row codec rows id) (host.store.rows_of-put _ w.outside)
              ∙ find_row-last (host.store.rows_of w.outside) _ id e (eq_refl id);
          in_workspace = refl;
        }
  created-HasRow host id workspace w (some r) e stored h =
      absurd (raised_absurd (rw (e, create_run) at h))

-- What the loop is handed: a well-formed state that grows as it should, and the row of its Run.
abbrev pub Begun :
    {X : Type 0} {codec : Codec}
    → Store codec X
    → (RunState → Type 0)
    → Attempt Applied
    → World X
    → Type 0
Begun store Grown (returned (prepared s)) w =
    GrowsInto Grown s × IsTranscript s.messages × HasRow store s.run_id s.workspace w.outside
Begun store Grown (returned (halted r)) w = IsConcluded store Grown r w
Begun store Grown (raised e) w = Unit

pub proceed-Begun :
    {X A : Type 0} {codec : Codec} (store : Store codec X) (Grown : RunState → Type 0)
    (a : Attempt A) (v : World X)
    → (f : A → Effect X Applied)
    → ((b : A) → a ≡ returned b → Begun store Grown (f b v).0 (f b v).1)
    → Begun store Grown (proceed a v f).0 (proceed a v f).1
unfolding proceed
proceed-Begun store Grown (returned b) v f h = h b refl
proceed-Begun store Grown (raised e) v f h = tt

module _ {X : Type 0} {codec : Codec} (host : HarnessHost codec X) (others : EventHub X)
    (quiet : IsQuietHub host.store others) where
  -- The Harness whose hub has the Handler of the checkpoints, beside others.
  abbrev pub with_checkpoints : HarnessHost codec X
  with_checkpoints = record host {
    loop = record (host.loop) { hub = register codec host.store others };
  }

  prepare_claimed-Begun :
      (Grown : RunState → Type 0) (id : String) (workspace : FilePath) (request : RunRequest)
      (w : World X)
      → GrowsInto Grown (seeded id workspace request)
      → Begun host.store Grown
          (prepare_claimed with_checkpoints id workspace request w).0
          (prepare_claimed with_checkpoints id workspace request w).1
  unfolding prepare_claimed seeded start_run
  prepare_claimed-Begun Grown id workspace request w grows =
      proceed-Begun host.store Grown _ _ _ (λ stored e.
        let h = created-HasRow host id workspace w _ refl stored e in
        proceed-Begun host.store Grown _ _ _ (λ _ _.
          let i = broadcast-HasRow host.store id workspace others quiet _ _ h in
          proceed-Begun host.store Grown _ _ _ (λ _ _.
            let j = broadcast-HasRow host.store id workspace others quiet _ _ i in
            proceed-Begun host.store Grown _ _ _ (λ _ _.
              proceed-Begun host.store Grown _ _ _ (λ _ _. (
                grows,
                ((refl, refl, refl), tt),
                rw
                    (
                      make_sandbox_keeps with_checkpoints workspace _,
                      load_budget_keeps with_checkpoints workspace _,
                    )
                    j,
              ))))))

  claimed-Begun :
      (Grown : RunState → Type 0) (held free : Attempt Applied × World X)
      → Begun host.store Grown held.0 held.1
      → Begun host.store Grown free.0 free.1
      → (b : Bool)
      → Begun host.store Grown
          (elim b as (λ _. Attempt Applied × World X) [ true ↦ held | false ↦ free ]).0
          (elim b as (λ _. Attempt Applied × World X) [ true ↦ held | false ↦ free ]).1
  claimed-Begun Grown held free h k true = h
  claimed-Begun Grown held free h k false = k

  pub claiming-Begun :
      (Grown : RunState → Type 0) (id : String) (refused : Raised) (body : Effect X Applied)
      (w : World X)
      → Begun host.store Grown (body w).0 (body w).1
      → Begun host.store Grown
          (claiming with_checkpoints id refused body w).0
          (claiming with_checkpoints id refused body w).1
  claiming-Begun Grown id refused body w b =
      claimed-Begun Grown (body w) (raised refused, w) b tt (host.is_free id w.outside)

  prepare_run-Begun :
      (Grown : RunState → Type 0) (request : RunRequest) (w : World X)
      → ((path : FilePath)
          → host.resolve_path request.workspace w.outside ≡ returned path
          → GrowsInto Grown (seeded (host.fresh_id w.outside) path request))
      → Begun host.store Grown
          (prepare_run with_checkpoints request w).0
          (prepare_run with_checkpoints request w).1
  unfolding prepare_run
  prepare_run-Begun Grown request w grows = proceed-Begun host.store Grown _ _ _ (λ workspace e.
      claiming-Begun Grown (host.fresh_id w.outside) _
        (prepare_claimed with_checkpoints (host.fresh_id w.outside) workspace request) w
        (prepare_claimed-Begun Grown (host.fresh_id w.outside) workspace request w
          (grows workspace e)))

  -- A state that grew out of the one that a request starts with.
  abbrev pub StartedFrom : RunRequest → World X → RunState → Type 0
  StartedFrom request w t =
      (path : FilePath) × (host.resolve_path request.workspace w.outside ≡ returned path)
      × (n : ℕ) × Evolves (seeded (host.fresh_id w.outside) path request) t n

  module _
      (on_stream : (id workspace : String) (request : ModelRequest) (x : X)
        → HasRow host.store id workspace x
        → HasRow host.store id workspace (host.loop.after_stream request x))
      (on_execute : (id workspace : String) (tool : Tool) (prefix : String) (call : ToolCall)
          (x : X)
        → HasRow host.store id workspace x
        → HasRow host.store id workspace (host.loop.tool_host.execute tool prefix call x).1) where
    pub go_on-IsSaved :
        (Grown : RunState → Type 0) (fuel limit : ℕ) (a : Attempt Applied) (v : World X)
        → 0 < limit
        → limit < fuel
        → Begun host.store Grown a v
        → (o : Attempt RunResult × World X) × (go_on with_checkpoints fuel limit (a, v) ≡ some o)
          × Lands (IsConcluded host.store Grown) o.0 o.1
    unfolding go_on
    go_on-IsSaved Grown fuel limit (returned (prepared s)) v pos enough b =
        let (t, g, (o, e, l)) =
          advance-IsSaved host.store others quiet (loop_for host s.workspace) on_stream on_execute
            Grown fuel limit s v b.0 b.1 pos enough b.2 in
        (o, e, l)
    go_on-IsSaved Grown fuel limit (returned (halted r)) v pos enough b =
        ((returned r, v), refl, lands b)
    go_on-IsSaved Grown fuel limit (raised e) v pos enough b = ((raised e, v), refl, escapes)

    -- A Run ends, with a limit and fuel for it; and if `run` returns a result, the last signal that
    -- was broadcast is the terminal one of a state that grew out of the first state of the Run, it
    -- carries that result, and the result and this state are in the store: the row tells the status and the message, and the state is
    -- loaded back. The Handlers beside the one that writes the checkpoints leave the store alone, and the model and
    -- the Tools keep the rows of the Runs.
    pub run-IsSaved :
        (fuel : ℕ) (request : RunRequest) (w : World X)
        → 0 < request.max_model_calls
        → request.max_model_calls < fuel
        → (o : Attempt RunResult × World X) × (run with_checkpoints fuel request w ≡ some o)
          × Lands (IsConcluded host.store (StartedFrom request w)) o.0 o.1
    unfolding run
    run-IsSaved fuel request w pos enough =
        go_on-IsSaved (StartedFrom request w) fuel request.max_model_calls
          (prepare_run with_checkpoints request w).0 (prepare_run with_checkpoints request w).1 pos
          enough
          (prepare_run-Begun (StartedFrom request w) request w (λ path e t n g. (path, e, n, g)))
