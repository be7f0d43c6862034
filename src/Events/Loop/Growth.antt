-- ===== src/Events/Loop/Growth.antt =====
-- How one turn of the loop changes the state of the Run: by which operations, and by how many
-- responses of the model.
use milky_frog_lite.Prelude.{
  ℕ, suc, ◌+◌, String, List, [], ◌∷◌, ◌++◌, Option, some, ◌≡◌, refl, ap, ◌∙◌, arith, append-nil,
  append_assoc, sym,
}
use milky_frog_lite.Domain.Message.{ToolCall, ToolResult}
use milky_frog_lite.Domain.Run.{RunState, ModelResponse, CompactionState, Compacted}
use milky_frog_lite.Transcript.{
  append_model_response, append_synthetic_tool_call, append_tool_result,
}
use milky_frog_lite.Transcript.Roles
use milky_frog_lite.Transcript.Roles.{IsTranscript, Step-IsTranscript}
use milky_frog_lite.Events.{
  tool_run_cancelled, task_cancelled, error, Attempt, returned, raised, World, Effect, proceed,
  Raised,
}
use milky_frog_lite.Events.ToolStep.{Resolved, pair, miscast}
use milky_frog_lite.Events.Loop.Model.{LoopHost}
use milky_frog_lite.Events.Loop.Batch.{
  Decided, BatchResult, fold_results, execute_decided_batch, append_synthesized, run_batch,
}
use milky_frog_lite.Events.Loop.Turn.{
  Step, next, stop, threw, Body, step_on, tagged, apply_control, tagged_turn, Finish,
}

-- A state grows into another by what the loop does to it, with that many responses of the model.
pub data Evolves (s : RunState) : RunState → ℕ → Type 0 where
  here : Evolves s s 0
  compacts :
      {t : RunState} {n : ℕ}
      → Evolves s t n
      → (c : CompactionState) → Evolves s (record t { compaction = some c }) n
  responds :
      {t : RunState} {n : ℕ}
      → Evolves s t n
      → (r : ModelResponse) → Evolves s (append_model_response t r) (suc n)
  returns :
      {t : RunState} {n : ℕ}
      → Evolves s t n
      → (call : ToolCall) (result : ToolResult) → Evolves s (append_tool_result t call result) n
  synthesizes :
      {t : RunState} {n : ℕ}
      → Evolves s t n
      → (call : ToolCall) → Evolves s (append_synthetic_tool_call t call) n

pub Evolves-calls :
    {s t : RunState} {n : ℕ} → Evolves s t n → t.completed_model_calls ≡ s.completed_model_calls + n
unfolding append_model_response append_synthetic_tool_call append_tool_result
Evolves-calls here = omega arith
Evolves-calls (compacts e c) = Evolves-calls e
Evolves-calls (responds {t} {n} e r) = let h = Evolves-calls e in omega arith
Evolves-calls (returns e call result) = Evolves-calls e
Evolves-calls (synthesizes e call) = Evolves-calls e

pub Evolves_trans :
    {s t u : RunState} {n m : ℕ} → Evolves s t n → Evolves t u m → (k : ℕ) × Evolves s u k
Evolves_trans {n = n} e here = (n, e)
Evolves_trans e (compacts f c) = let (k, g) = Evolves_trans e f in (k, compacts g c)
Evolves_trans e (responds f r) = let (k, g) = Evolves_trans e f in (suc k, responds g r)
Evolves_trans e (returns f call result) =
    let (k, g) = Evolves_trans e f in (k, returns g call result)
Evolves_trans e (synthesizes f call) = let (k, g) = Evolves_trans e f in (k, synthesizes g call)

-- What holds of every state that grows out of one.
abbrev pub GrowsInto : (RunState → Type 0) → RunState → Type 0
GrowsInto Grown s = (t : RunState) (n : ℕ) → Evolves s t n → Grown t

-- The state with which the loop is left.
pub data Exits : Step RunState → RunState → Type 0 where
  stops : {how : Finish} {t : RunState} → Exits (stop how t) t
  throws : {e : Raised} {t : RunState} → Exits (threw e t) t

pub Evolves-trans :
    {s t u : RunState} {n m : ℕ} → Evolves s t n → Evolves t u m → (k : ℕ) × Evolves s u k
Evolves-trans {n} e here = (n, e)
Evolves-trans e (compacts d c) = let r = Evolves-trans e d in (r.0, compacts r.1 c)
Evolves-trans e (responds d r) = let h = Evolves-trans e d in (suc h.0, responds h.1 r)
Evolves-trans e (returns d call result) =
    let r = Evolves-trans e d in (r.0, returns r.1 call result)
Evolves-trans e (synthesizes d call) = let r = Evolves-trans e d in (r.0, synthesizes r.1 call)

-- What a Run keeps while it grows: whose it is and where, and all that its transcript held.
pub record IsExtension (s t : RunState) : Type 0 where
  pub same_run : t.run_id ≡ s.run_id
  pub same_workspace : t.workspace ≡ s.workspace
  pub extended : (added : List _) × (t.messages ≡ s.messages ++ added)

longer :
    {s t : RunState}
    → IsExtension s t
    → (u : RunState) → u.run_id ≡ t.run_id
    → u.workspace ≡ t.workspace
    → (more : List _) → u.messages ≡ t.messages ++ more
    → IsExtension s u
longer {s} e u r w more m = record {
  same_run = r ∙ e.same_run;
  same_workspace = w ∙ e.same_workspace;
  extended = (
    e.extended.0 ++ more,
    m ∙ ap (λ l. l ++ more) e.extended.1 ∙ append_assoc s.messages e.extended.0 more,
  );
}

pub Evolves-IsExtension : {s t : RunState} {n : ℕ} → Evolves s t n → IsExtension s t
unfolding append_model_response append_synthetic_tool_call append_tool_result
Evolves-IsExtension {s} here = record {
  same_run = refl;
  same_workspace = refl;
  extended = ([], sym (append-nil s.messages));
}
Evolves-IsExtension (compacts {t} e c) =
    longer (Evolves-IsExtension e) _ refl refl [] (sym (append-nil t.messages))
Evolves-IsExtension (responds e r) = longer (Evolves-IsExtension e) _ refl refl _ refl
Evolves-IsExtension (returns e call result) = longer (Evolves-IsExtension e) _ refl refl _ refl
Evolves-IsExtension (synthesizes e call) = longer (Evolves-IsExtension e) _ refl refl _ refl

pub Evolves-IsTranscript :
    {s t : RunState} {n : ℕ} → Evolves s t n → IsTranscript s.messages → IsTranscript t.messages
Evolves-IsTranscript here h = h
Evolves-IsTranscript (compacts e c) h = Evolves-IsTranscript e h
Evolves-IsTranscript (responds e r) h =
    Step-IsTranscript (Roles.responds r) (Evolves-IsTranscript e h)
Evolves-IsTranscript (returns e call result) h =
    Step-IsTranscript (Roles.returns call result) (Evolves-IsTranscript e h)
Evolves-IsTranscript (synthesizes e call) h =
    Step-IsTranscript (Roles.synthesizes call) (Evolves-IsTranscript e h)

-- What holds of the result, if one is returned.
unfoldable pub Returns : {A : Type 0} → (A → Type 0) → Attempt A → Type 0
Returns Q (returned a) = Q a
Returns Q (raised e) = Unit

-- What holds of the result, or of the state with which the body is left.
unfoldable pub Leaves : {A : Type 0} → (A → Type 0) → (RunState → Type 0) → Step A → Type 0
Leaves Q P (next a) = Q a
Leaves Q P (stop how t) = P t
Leaves Q P (threw e t) = P t

-- Every attempt returns something or not.
pub Returns-tt : {A : Type 0} (r : Attempt A) → Returns (λ _. Unit) r
unfolding Returns
Returns-tt (returned a) = tt
Returns-tt (raised e) = tt

module _ {X A B : Type 0} where
  pub proceed-Returns :
      (Q : B → Type 0) {R : A → Type 0} (r : Attempt A) (v : World X) (f : A → Effect X B)
      → Returns R r
      → ((a : A) (u : World X) → R a → Returns Q (f a u).0)
      → Returns Q (proceed r v f).0
  unfolding proceed Returns
  proceed-Returns Q (returned a) v f l h = h a v l
  proceed-Returns Q (raised e) v f l h = tt

  pub step_on-Leaves :
      {R : A → Type 0} (Q : B → Type 0) (P : RunState → Type 0) (m : Step A) (v : World X)
      → (f : A → Body X B) → Leaves R P m
      → ((a : A) (u : World X) → R a → Leaves Q P (f a u).0)
      → Leaves Q P (step_on m v f).0
  unfolding step_on Leaves
  step_on-Leaves Q P (next a) v f l h = h a v l
  step_on-Leaves Q P (stop how t) v f l h = l
  step_on-Leaves Q P (threw e t) v f l h = l

pub tagged-Leaves :
    {A : Type 0} (Q : A → Type 0) (P : RunState → Type 0) (t : RunState) (r : Attempt A)
    → Returns Q r
    → P t
    → Leaves Q P (tagged t r)
unfolding Leaves Returns
tagged-Leaves Q P t (returned a) q p = q
tagged-Leaves Q P t (raised e) q p = p

pub tagged_turn-Leaves :
    (P : RunState → Type 0) (t : RunState) (r : Attempt ModelResponse)
    → P t
    → Leaves (λ _. Unit) P (tagged_turn t r)
unfolding Leaves
tagged_turn-Leaves P t (returned a) p = tt
tagged_turn-Leaves P t (raised tool_run_cancelled) p = p
tagged_turn-Leaves P t (raised task_cancelled) p = p
tagged_turn-Leaves P t (raised (error _ _ _)) p = p

pub apply_control-Evolves :
    {s : RunState} {n : ℕ} (results : List Compacted) (t : RunState) (applied : Option Compacted)
    → Evolves s t n
    → Evolves s (apply_control t applied results).0 n
unfolding apply_control
apply_control-Evolves [] t applied e = e
apply_control-Evolves (c ∷ results) t applied e =
    apply_control-Evolves results _ _ (compacts e c.compaction)

pub append_synthesized-Evolves :
    {s : RunState} {n : ℕ} (calls : List ToolCall) (t : RunState)
    → Evolves s t n
    → Evolves s (append_synthesized t calls) n
unfolding append_synthesized
append_synthesized-Evolves [] t e = e
append_synthesized-Evolves (c ∷ calls) t e = append_synthesized-Evolves calls _ (synthesizes e c)

module _ {X : Type 0} (host : LoopHost X) (run_id : String) {s : RunState} {n : ℕ} where
  pub fold_results-Evolves :
      (resolved : List Resolved) (t : RunState) (w : World X)
      → Evolves s t n
      → Returns (λ u. Evolves s u n) (fold_results host run_id t resolved w).0
  unfolding fold_results Returns
  fold_results-Evolves [] t w e = e
  fold_results-Evolves (pair call outcome ∷ resolved) t w e =
      proceed-Returns _ _ _ _ (Returns-tt _)
        (λ _ v _. fold_results-Evolves resolved _ v (returns e call outcome))
  fold_results-Evolves (miscast call err ∷ resolved) t w e = tt

  pub execute_decided_batch-Evolves :
      (ds : List Decided) (t : RunState) (w : World X)
      → Evolves s t n
      → Returns
          (λ (b : BatchResult). Evolves s b.state n)
          (execute_decided_batch host run_id t ds w).0
  unfolding execute_decided_batch Returns
  execute_decided_batch-Evolves [] t w e = e
  execute_decided_batch-Evolves (d ∷ ds) t w e = proceed-Returns _ _ _ _ (Returns-tt _) (λ _ v _.
      proceed-Returns _ {R = λ _. Unit} _ _ _ (Returns-tt (run_batch host (d ∷ ds) v).0)
        (λ ran u _. proceed-Returns _ _ _ _ (fold_results-Evolves ran.0 t u e) (λ grown x l. l)))
