-- ===== src/Handlers/Broadcasts.antt =====
-- What a broadcast leaves in the store, with the Handler of the checkpoints registered beside
-- Handlers that leave the store alone.
use milky_frog_lite.Events.Hub.Order.{sorted-All, sorted-Any}
use milky_frog_lite.Events.Loop.Outcome.{
  Announces, completes, pauses, waits_for_approval, cancels, fails, broadcast-events,
}
use milky_frog_lite.Handlers.Company.{
  HasRow, IsQuietHub, IsSaved, IsQuiet, rows-HasRow, deliver-All, deliver-Any, save-HasRow,
  observe-All, rows-IsSaved, save-IsSaved,
}
use milky_frog_lite.Transcript.Roles.{IsTranscript}
use milky_frog_lite.Events.{
  Event, run_after_model, run_completed, run_started, run_after_tool, EventType, World, returned,
  type_of, completed_event, paused_event, cancelled_event, failed_event, run_paused, run_cancelled,
  run_failed,
}
use milky_frog_lite.Prelude.{
  String, List, All, ◌∷◌, [], some, ◌≡◌, ◌++◌, All-append, Any-append, refl,
}
use milky_frog_lite.Domain.Run.{RunState, RunResult, FilePath, Compacted}
use milky_frog_lite.Events.Hub.{
  broadcast, observe, EventHub, Registration, deliver, sorted, record_event,
}
use milky_frog_lite.Snapshot.{Codec}
use milky_frog_lite.Handlers.{
  on_run_started, on_after_model, on_after_tool, on_terminal, register, Codec, Store, RunState,
  String, Event, List, save, some, is_failed, is_cancelled, is_paused, is_completed, is_after_tool,
  is_after_model, is_started,
}

module _ {X : Type 0} {codec : Codec} (store : Store codec X) (id : String)
    (workspace : FilePath) where
  abbrev RowKept : X → Type 0
  RowKept = HasRow store id workspace

  -- A Handler that never loses the row of the Run.
  abbrev Guards : Registration X → Type 0
  Guards r = (event : Event) (x : X) → RowKept x → RowKept (r.handler event x).1

  on_run_started-HasRow :
      (event : Event) (x : X) → RowKept x → RowKept (on_run_started codec store event x).1
  unfolding on_run_started
  on_run_started-HasRow (run_started r _ s) x h = save-HasRow store id workspace r s _ _ x h
  on_run_started-HasRow _ x h = h

  on_after_model-HasRow :
      (event : Event) (x : X) → RowKept x → RowKept (on_after_model codec store event x).1
  unfolding on_after_model
  on_after_model-HasRow (run_after_model r _ _ s) x h = save-HasRow store id workspace r s _ _ x h
  on_after_model-HasRow _ x h = h

  on_after_tool-HasRow :
      (event : Event) (x : X) → RowKept x → RowKept (on_after_tool codec store event x).1
  unfolding on_after_tool
  on_after_tool-HasRow (run_after_tool r _ _ s) x h = save-HasRow store id workspace r s _ _ x h
  on_after_tool-HasRow _ x h = h

  on_terminal-HasRow :
      (event : Event) (x : X) → RowKept x → RowKept (on_terminal codec store event x).1
  unfolding on_terminal
  on_terminal-HasRow (run_completed r _ s) x h = save-HasRow store id workspace r s _ _ x h
  on_terminal-HasRow (run_paused r _ s) x h = save-HasRow store id workspace r s _ _ x h
  on_terminal-HasRow (run_cancelled r _ s) x h = save-HasRow store id workspace r s _ _ x h
  on_terminal-HasRow (run_failed r _ s) x h = save-HasRow store id workspace r s _ _ x h
  on_terminal-HasRow _ x h = h

  All-Guards : (rs : List (Registration X)) → All (IsQuiet store) rs → All Guards rs
  All-Guards [] q = tt
  All-Guards (r ∷ rs) q = (λ event x h. rows-HasRow store (q.0 event x) h, All-Guards rs q.1)

  All-at :
      (event : Event) (rs : List (Registration X))
      → All Guards rs
      → All (λ r. (x : X) → RowKept x → RowKept (r.handler event x).1) rs
  All-at event [] h = tt
  All-at event (r ∷ rs) h = (h.0 event, All-at event rs h.1)

  register-Guards :
      (others : EventHub X)
      → IsQuietHub store others
      → (t : EventType) → All Guards ((register codec store others).registered t)
  unfolding register
  register-Guards others q t =
      let a_hub = observe others is_started 100 (on_run_started codec store) in
      let a =
        observe-All Guards others is_started 100 (on_run_started codec store) t
          (All-Guards (others.registered t) (q t)) on_run_started-HasRow in
      let b_hub = observe a_hub is_after_model 100 (on_after_model codec store) in
      let b =
        observe-All Guards a_hub is_after_model 100 (on_after_model codec store) t a
          on_after_model-HasRow in
      let c_hub = observe b_hub is_after_tool 100 (on_after_tool codec store) in
      let c =
        observe-All Guards b_hub is_after_tool 100 (on_after_tool codec store) t b
          on_after_tool-HasRow in
      let d_hub = observe c_hub is_completed 100 (on_terminal codec store) in
      let d =
        observe-All Guards c_hub is_completed 100 (on_terminal codec store) t c
          on_terminal-HasRow in
      let e_hub = observe d_hub is_paused 100 (on_terminal codec store) in
      let e =
        observe-All Guards d_hub is_paused 100 (on_terminal codec store) t d on_terminal-HasRow in
      let f_hub = observe e_hub is_cancelled 100 (on_terminal codec store) in
      let f =
        observe-All Guards e_hub is_cancelled 100 (on_terminal codec store) t e
          on_terminal-HasRow in
      observe-All Guards f_hub is_failed 100 (on_terminal codec store) t f on_terminal-HasRow

  -- Whatever is broadcast, the row of the Run stays.
  pub broadcast-HasRow :
      (others : EventHub X)
      → IsQuietHub store others
      → (event : Event) (w : World X) → RowKept w.outside
      → RowKept (broadcast (register codec store others) event w).1.outside
  unfolding broadcast
  broadcast-HasRow others q event w h =
      deliver-All RowKept event _
        (sorted-All _ _ (All-at event _ (register-Guards others q (type_of event))))
        (record_event event w) h

module _ {X : Type 0} {codec : Codec} (store : Store codec X) (t : RunState) (result : RunResult)
    (event : Event) where
  abbrev Stored : X → Type 0
  Stored x = HasRow store t.run_id t.workspace x × IsSaved store t result x

  abbrev KeepsStored : Registration X → Type 0
  KeepsStored r = (x : X) → Stored x → Stored (r.handler event x).1

  All-Stored : (rs : List (Registration X)) → All (IsQuiet store) rs → All KeepsStored rs
  All-Stored [] q = tt
  All-Stored (r ∷ rs) q = (
    λ x h. (rows-HasRow store (q.0 event x) h.0, rows-IsSaved store (q.0 event x) h.1),
    All-Stored rs q.1,
  )

  -- Of the list of a terminal class: the Handlers before, and the one that writes.
  delivered-Stored :
      (rs : List (Registration X)) (writer : Registration X)
      → All (IsQuiet store) rs
      → ((x : X) → HasRow store t.run_id t.workspace x → Stored (writer.handler event x).1)
      → (w : World X) → HasRow store t.run_id t.workspace w.outside
      → (xs : List Compacted) → (deliver event (sorted (rs ++ writer ∷ [])) w).0 ≡ returned xs
      → Stored (deliver event (sorted (rs ++ writer ∷ [])) w).1.outside
  delivered-Stored rs writer q s w h xs e =
      deliver-Any (HasRow store t.run_id t.workspace) Stored event _
        (sorted-All _ _ (
          All-append _ rs _
            (All-at store t.run_id t.workspace event rs
              (All-Guards store t.run_id t.workspace rs q))
            (λ x i. (s x i).0, tt)))
        (sorted-All _ _ (All-append _ rs _ (All-Stored rs q) (λ x i. s x i.0, tt)))
        (sorted-Any _ _ (Any-append _ rs writer s)) w h xs e

module _ {X : Type 0} {codec : Codec} (store : Store codec X) where
  saving :
      (t : RunState) (result : RunResult)
      → result.run_id ≡ t.run_id
      → IsTranscript t.messages
      → (x : X) → HasRow store t.run_id t.workspace x
      → Stored store t result
          (run_completed t.run_id result t)
          (save codec store t.run_id t (some result.status) (some result.final_message) x).1
  saving t result same p x h = (
    save-HasRow store t.run_id t.workspace t.run_id t _ _ x h,
    save-IsSaved store t result x same p h,
  )

  -- A terminal signal that reached its Handlers left the Run in the store, as it tells.
  pub broadcast-IsSaved :
      (others : EventHub X)
      → IsQuietHub store others
      → (t : RunState) (result : RunResult) → (event : Event) (w : World X)
      → Announces t result event
      → IsTranscript t.messages
      → HasRow store t.run_id t.workspace w.outside
      → (xs : List Compacted) → (broadcast (register codec store others) event w).0 ≡ returned xs
      → IsSaved store t result (broadcast (register codec store others) event w).1.outside
  unfolding broadcast register on_terminal observe type_of
  broadcast-IsSaved others q t r event w (completes m) p h xs e =
      (delivered-Stored store t r event _ _ (q completed_event) (saving t r refl p) _ h xs e).1
  broadcast-IsSaved others q t r event w (pauses m) p h xs e =
      (delivered-Stored store t r event _ _ (q paused_event) (saving t r refl p) _ h xs e).1
  broadcast-IsSaved others q t r event w (waits_for_approval m) p h xs e =
      (delivered-Stored store t r event _ _ (q paused_event) (saving t r refl p) _ h xs e).1
  broadcast-IsSaved others q t r event w (cancels m) p h xs e =
      (delivered-Stored store t r event _ _ (q cancelled_event) (saving t r refl p) _ h xs e).1
  broadcast-IsSaved others q t r event w (fails m) p h xs e =
      (delivered-Stored store t r event _ _ (q failed_event) (saving t r refl p) _ h xs e).1

  -- The last signal broadcast is the terminal one that carries the result and the state, which has
  -- grown as it should, and this state is in the store with the result.
  pub record IsConcluded (Grown : RunState → Type 0) (result : RunResult) (w : World X)
      : Type 0 where
    pub state : RunState
    pub grown : Grown state
    pub before : List Event
    pub event : Event
    pub last : w.events ≡ before ++ event ∷ []
    pub announced : Announces state result event
    pub saved : IsSaved store state result w.outside

  pub broadcast-IsConcluded :
      (Grown : RunState → Type 0) (others : EventHub X)
      → IsQuietHub store others
      → (t : RunState) (result : RunResult) → (event : Event) (w : World X) → Grown t
      → Announces t result event
      → IsTranscript t.messages
      → HasRow store t.run_id t.workspace w.outside
      → (xs : List Compacted) → (broadcast (register codec store others) event w).0 ≡ returned xs
      → IsConcluded Grown result (broadcast (register codec store others) event w).1
  broadcast-IsConcluded Grown others q t r event w g n p h xs e = record {
    state = t;
    grown = g;
    before = w.events;
    event = event;
    last = broadcast-events (register codec store others) event w;
    announced = n;
    saved = broadcast-IsSaved others q t r event w n p h xs e;
  }
