-- ===== src/Handlers/Company.antt =====
-- The Handler that writes the checkpoints beside Handlers that leave the store alone: whatever is
-- broadcast keeps the row of a Run, and a terminal signal that reaches every Handler stores its
-- Run.
use milky_frog_lite.Prelude.{
  ℕ, Bool, true, false, String, List, [], ◌∷◌, Option, some, ◌≡◌, refl, sym, ap, ◌∙◌, All, Any,
  All-append, Bool-cases, inl, inr, str_eq, ok, if◌then◌else◌,
}
use milky_frog_lite.Domain.Run.{RunState, RunResult, RunStatus, Compacted, FilePath}
use milky_frog_lite.Transcript.Roles.{IsTranscript}
use milky_frog_lite.Snapshot.{Codec}
use milky_frog_lite.Checkpoint.{Row, find_row, saved_row, load_state}
use milky_frog_lite.Checkpoint.Rows.{
  find_row-save_state, run_id-find_row, load_state-save_state, map_row,
}
use milky_frog_lite.Events.{
  Event, EventType, Attempt, returned, raised, World, Effect, proceed, Raised,
}
use milky_frog_lite.Events.Hub.{
  EventHub, Registration, registration, observe, deliver, call_handler,
}
use milky_frog_lite.Events.Loop.Keeps.{proceed-keeps}
use milky_frog_lite.Handlers.{Store, save}

pub raised_absurd : {A : Type 0} {e : Raised} {a : A} → raised e ≡ returned a → ⊥
raised_absurd h = cc

module _ {X : Type 0} where
  -- A property that every Handler of a list keeps is kept by the delivery.
  pub deliver-All :
      (I : X → Type 0) (event : Event) (rs : List (Registration X))
      → All (λ r. (x : X) → I x → I (r.handler event x).1) rs
      → (w : World X) → I w.outside
      → I (deliver event rs w).1.outside
  unfolding deliver
  deliver-All I event [] h w i = i
  deliver-All I event (r ∷ rs) h w i =
      proceed-keeps I _ (call_handler event r w).1 _ (h.0 w.outside i)
        (λ _ u j. proceed-keeps I _ _ _ (deliver-All I event rs h.1 u j) (λ _ _ l. l))

  proceed-reached :
      {A B : Type 0} (J : X → Type 0) (a : Attempt A) (v : World X) (f : A → Effect X B) (y : B)
      → (proceed a v f).0 ≡ returned y
      → ((b : A) → (f b v).0 ≡ returned y → J (f b v).1.outside)
      → J (proceed a v f).1.outside
  unfolding proceed
  proceed-reached J (returned b) v f y h k = k b h
  proceed-reached J (raised e) v f y h k = absurd (raised_absurd h)

  proceed-returned :
      {A B : Type 0} (a : Attempt A) (v : World X) (f : A → Effect X B) (y : B)
      → (proceed a v f).0 ≡ returned y
      → (b : A) × (a ≡ returned b)
  unfolding proceed
  proceed-returned (returned b) v f y h = (b, refl)
  proceed-returned (raised e) v f y h = absurd (raised_absurd h)

  -- What one Handler of a list brings about, and all keep, holds if the delivery reached them all.
  pub deliver-Any :
      (I J : X → Type 0) (event : Event) (rs : List (Registration X))
      → All (λ r. (x : X) → I x → I (r.handler event x).1) rs
      → All (λ r. (x : X) → J x → J (r.handler event x).1) rs
      → Any (λ r. (x : X) → I x → J (r.handler event x).1) rs
      → (w : World X) → I w.outside
      → (xs : List Compacted) → (deliver event rs w).0 ≡ returned xs
      → J (deliver event rs w).1.outside
  unfolding deliver
  deliver-Any I J event [] h k a w i xs e = elim a [ ]
  deliver-Any I J event (r ∷ rs) h k (inl p) w i xs e =
      proceed-keeps J _ (call_handler event r w).1 _ (p w.outside i)
        (λ _ u j. proceed-keeps J _ _ _ (deliver-All J event rs k.1 u j) (λ _ _ l. l))
  deliver-Any I J event (r ∷ rs) h k (inr a) w i xs e =
      proceed-reached J (call_handler event r w).0 (call_handler event r w).1 _ xs e (λ o e'.
        let v = (call_handler event r w).1 in
        let (ys, d) = proceed-returned (deliver event rs v).0 (deliver event rs v).1 _ xs e' in
        proceed-keeps J (deliver event rs v).0 (deliver event rs v).1 _
          (deliver-Any I J event rs h.1 k.1 a v (h.0 w.outside i) ys d) (λ _ _ l. l))

  pub observe-All :
      (P : Registration X → Type 0) (hub : EventHub X) (same : EventType → Bool) (priority : ℕ)
      → (handler : _) (t : EventType) → All P (hub.registered t)
      → P (registration hub priority handler)
      → All P ((observe hub same priority handler).registered t)
  unfolding observe
  observe-All P hub same priority handler t a p = elim (Bool-cases (same t)) [
    | inl e ↦ rw e (All-append P (hub.registered t) _ a (p, tt))
    | inr e ↦ rw e a
  ]

module _ {X : Type 0} {codec : Codec} (store : Store codec X) where
  -- The Run has a row, in its Workspace.
  pub record HasRow (id : String) (workspace : FilePath) (x : X) : Type 0 where
    pub row : Row codec
    pub found : find_row codec (store.rows_of x) id ≡ some row
    pub in_workspace : workspace ≡ row.stored.workspace

  -- The row of the Run tells its result, and its state is loaded back.
  pub record IsSaved (t : RunState) (result : RunResult) (x : X) : Type 0 where
    pub row : Row codec
    pub same_run : result.run_id ≡ t.run_id
    pub found : find_row codec (store.rows_of x) t.run_id ≡ some row
    pub status : row.stored.status ≡ result.status
    pub message : row.stored.final_message ≡ some result.final_message
    pub loaded : load_state codec (store.rows_of x) t.run_id ≡ ok t

  abbrev pub IsQuiet : Registration X → Type 0
  IsQuiet r = (event : Event) (x : X) → store.rows_of (r.handler event x).1 ≡ store.rows_of x

  abbrev pub IsQuietHub : EventHub X → Type 0
  IsQuietHub hub = (t : EventType) → All IsQuiet (hub.registered t)

  pub rows-HasRow :
      {id : String} {workspace : FilePath} {x y : X}
      → store.rows_of y ≡ store.rows_of x
      → HasRow id workspace x
      → HasRow id workspace y
  rows-HasRow {id} e h = record {
    row = h.row;
    found = ap (λ rows. find_row codec rows id) e ∙ h.found;
    in_workspace = h.in_workspace;
  }

  pub rows-IsSaved :
      {t : RunState} {result : RunResult} {x y : X}
      → store.rows_of y ≡ store.rows_of x
      → IsSaved t result x
      → IsSaved t result y
  rows-IsSaved {t} e h = record {
    row = h.row;
    same_run = h.same_run;
    found = ap (λ rows. find_row codec rows t.run_id) e ∙ h.found;
    status = h.status;
    message = h.message;
    loaded = ap (λ rows. load_state codec rows t.run_id) e ∙ h.loaded;
  }

  saved_row-workspace :
      (b : Bool) (now : ℕ) (state : RunState) (status : Option RunStatus) (m : Option String)
      → (r : Row codec)
      → (if b then saved_row codec now state status m r else r).stored.workspace
        ≡ r.stored.workspace
  unfolding saved_row
  saved_row-workspace true now state status m r = refl
  saved_row-workspace false now state status m r = refl

  pub save-HasRow :
      (id : String) (workspace : FilePath) (run_id : String) (state : RunState)
      → (status : Option RunStatus) (m : Option String) (x : X) → HasRow id workspace x
      → HasRow id workspace (save codec store run_id state status m x).1
  save-HasRow id workspace run_id state status m x h = record {
    row =
        if str_eq h.row.stored.run_id run_id
        then saved_row codec (store.now x) state status m h.row
        else h.row;
    found =
        ap (λ rows. find_row codec rows id) (store.rows_of-put _ x)
        ∙ find_row-save_state codec (store.rows_of x) (store.now x) run_id id state status m
        ∙ ap (map_row codec _) h.found;
    in_workspace = h.in_workspace ∙ sym (saved_row-workspace _ _ state status m h.row);
  }

  pub save-IsSaved :
      (t : RunState) (result : RunResult) (x : X)
      → result.run_id ≡ t.run_id
      → IsTranscript t.messages
      → HasRow t.run_id t.workspace x
      → IsSaved t result
          (save codec store t.run_id t (some result.status) (some result.final_message) x).1
  unfolding saved_row
  save-IsSaved t result x same h i = record {
    row = saved_row codec (store.now x) t (some result.status) (some result.final_message) i.row;
    same_run = same;
    found =
        ap (λ rows. find_row codec rows t.run_id) (store.rows_of-put _ x)
        ∙ find_row-save_state codec (store.rows_of x) (store.now x) t.run_id t.run_id t _ _
        ∙ rw (i.found, run_id-find_row codec (store.rows_of x) t.run_id i.row i.found) refl;
    status = refl;
    message = refl;
    loaded =
        ap (λ rows. load_state codec rows t.run_id) (store.rows_of-put _ x)
        ∙ load_state-save_state codec (store.rows_of x) (store.now x) t.run_id t _ _ i.row i.found
            refl i.in_workspace h;
  }
