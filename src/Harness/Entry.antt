-- ===== src/Harness/Entry.antt =====
-- What is loaded and repaired before a Run goes on, and the row it leaves.
use milky_frog_lite.Transcript.Seal.{seal_lem}
use milky_frog_lite.Transcript.Roles.{IsTranscript, Step-IsTranscript}
use milky_frog_lite.Transcript.{with_run_skills, seal, append_user_message}
use milky_frog_lite.Handlers.Company.{HasRow, raised_absurd}
use milky_frog_lite.Events.{returned, World}
use milky_frog_lite.Harness.Durable.{not_none}
use milky_frog_lite.Domain.Message.{Message}
use milky_frog_lite.Domain.Run.{FilePath, RunState}
use milky_frog_lite.Prelude.{
  String, ◌≡◌, Option, some, ok, List, Option-cases, inl, sym, inr, ap, eq_of_some-eq, none, ◌∙◌,
  err, Bool, ℕ, eq_of_ok-eq, if◌then◌else◌, refl, Result, true, false, Bool-cases, length, filter,
  ◌==◌,
}
use milky_frog_lite.Checkpoint.{
  resumed_row, prepare_resume, load_state, decoded, is_unchanged, find_row, update_where, Row,
  StoreError, StoredRun,
}
use milky_frog_lite.Checkpoint.Rows.{find_row-update_where, map_row}
use milky_frog_lite.Snapshot.{load_run_state, from_snapshot, with_messages, Codec, RunSnapshot}
use milky_frog_lite.Harness.{
  writing, attempt, Codec, String, FilePath, Option, some, ok, List, err, returned, ℕ, Bool, Result,
  seal, with_run_skills, append_user_message,
}
use milky_frog_lite.Harness.Host.{repaired, reskilled, prompted, HarnessHost}

-- A loaded state bears the id and the Workspace that it was loaded for.
pub record IsOf (id : String) (workspace : FilePath) (s : RunState) : Type 0 where
  pub same_run : s.run_id ≡ id
  pub same_workspace : s.workspace ≡ workspace

with_messages-IsOf :
    (id : String) (workspace : FilePath) (raw : RunSnapshot) (ms : Option (List Message))
    (s : RunState)
    → with_messages id workspace raw ms ≡ some s
    → IsOf id workspace s
unfolding with_messages
with_messages-IsOf id workspace raw none s h = absurd (not_none s (sym h))
with_messages-IsOf id workspace raw (some ms) s h = record {
  same_run = sym (ap (λ t. t.run_id) (eq_of_some-eq h));
  same_workspace = sym (ap (λ t. t.workspace) (eq_of_some-eq h));
}

load_run_state-IsOf :
    (codec : Codec) (id : String) (workspace : FilePath) (raw : codec.Encoded) (s : RunState)
    → load_run_state codec id workspace raw ≡ some s
    → IsOf id workspace s
unfolding load_run_state from_snapshot
load_run_state-IsOf codec id workspace raw s h = elim (Option-cases (codec.decode raw)) [
  | inl e ↦ absurd (not_none s (sym (rw (e, load_run_state) at h)))
  | inr (x, e) ↦ with_messages-IsOf id workspace x _ s (rw (e, load_run_state) at h)
]

pub eq_of_returned-eq : {A : Type 0} {a b : A} → returned a ≡ returned b → a ≡ b
eq_of_returned-eq h = cc

pub not_ok : {A : Type 0} {e : StoreError} {a : A} → err e ≡ ok a → ⊥
not_ok h = cc

decoded-IsOf :
    {codec : Codec} (id : String) (r : Row codec) (s : RunState)
    → decoded codec id (some r) ≡ ok s
    → IsOf id r.stored.workspace s
unfolding decoded
decoded-IsOf {codec} id r s h =
    elim (Option-cases (load_run_state codec id r.stored.workspace r.state_json)) [
      | inl e ↦ absurd (not_ok (rw (e, decoded) at h))
      | inr (x, e) ↦
          load_run_state-IsOf codec id r.stored.workspace r.state_json s
            (e ∙ ap (λ y. some y) (eq_of_ok-eq (rw (e, decoded) at h)))
    ]

pub attempt_ok :
    {X : Type 0} {codec : Codec} (host : HarnessHost codec X)
    → (x : Result StoreError RunState) (t : RunState) → attempt host x ≡ returned t
    → x ≡ ok t
attempt_ok host (ok t') t h = ap (λ y. ok y) (eq_of_returned-eq h)
attempt_ok host (err e) t h = absurd (raised_absurd h)

module _ {X : Type 0} {codec : Codec} (host : HarnessHost codec X) (id : String) where
  pub load_state-IsOf :
      (rows : List (Row codec)) (r : Row codec) (s : RunState)
      → find_row codec rows id ≡ some r
      → attempt host (load_state codec rows id) ≡ returned s
      → IsOf id r.stored.workspace s × (load_state codec rows id ≡ ok s)
  unfolding load_state
  load_state-IsOf rows r s found h =
      let e = attempt_ok host (load_state codec rows id) s h in
      (decoded-IsOf id r s (rw found at e), e)

  resumed_row-workspace :
      (b : Bool) (now : ℕ) (state : RunState) (r : Row codec)
      → (if b then resumed_row codec now state r else r).stored.workspace ≡ r.stored.workspace
  unfolding resumed_row
  resumed_row-workspace true now state r = refl
  resumed_row-workspace false now state r = refl

  resumed_row_id :
      (now : ℕ) (state : RunState) (r : Row codec)
      → (resumed_row codec now state r).stored.run_id ≡ r.stored.run_id
  unfolding resumed_row
  resumed_row_id now state r = refl

  -- A resume that is accepted leaves the row in the Workspace of the Run.
  pub prepare_resume-HasRow :
      (workspace : FilePath) (expected : ℕ) (state : RunState) (w : World X) (stored : StoredRun)
      → HasRow host.store id workspace w.outside
      → (writing host (λ rows now. prepare_resume codec rows now id expected state) w).0
        ≡ returned stored
      → HasRow host.store id workspace
          (writing host (λ rows now. prepare_resume codec rows now id expected state) w).1.outside
  unfolding prepare_resume
  prepare_resume-HasRow workspace expected state w stored h e =
      elim (Bool-cases
        (length (filter (is_unchanged codec id expected) (host.store.rows_of w.outside)) == 0)) [
          | inl z ↦ absurd (raised_absurd (rw (z, prepare_resume) at e))
          | inr z ↦
              rw (z, prepare_resume, found_after)
                record {
                  row = _;
                  found =
                      ap (λ rows. find_row codec rows id) (host.store.rows_of-put _ w.outside)
                      ∙ found_after;
                  in_workspace = h.in_workspace ∙ sym (resumed_row-workspace _ _ state h.row);
                }
        ]
    where
      found_after :
          find_row codec
            (update_where codec
              (is_unchanged codec id expected)
              (resumed_row codec (host.store.now w.outside) state)
              (host.store.rows_of w.outside))
            id
          ≡ some (
              if is_unchanged codec id expected h.row
              then resumed_row codec (host.store.now w.outside) state h.row
              else h.row)
      found_after =
          find_row-update_where codec _ _ (host.store.rows_of w.outside) id
            (resumed_row_id (host.store.now w.outside) state)
          ∙ ap (map_row codec _) h.found

-- A state for the Run, well formed.
pub record IsReady (id : String) (workspace : FilePath) (s : RunState) : Type 0 where
  pub is_of : IsOf id workspace s
  pub transcript : IsTranscript s.messages

module _ (id : String) (workspace : FilePath) where
  pub reskilled-IsReady :
      (extra skills : Option (List String)) (s : RunState)
      → IsReady id workspace s
      → IsReady id workspace (reskilled extra skills s)
  unfolding with_run_skills
  reskilled-IsReady none skills s h = h
  reskilled-IsReady (some e) none s h = h
  reskilled-IsReady (some e) (some k) s h = record {
    is_of = record { same_run = h.is_of.same_run; same_workspace = h.is_of.same_workspace };
    transcript = h.transcript;
  }

  prompted-IsReady :
      (prompt : Option String) (s : RunState)
      → IsReady id workspace s
      → IsReady id workspace (prompted prompt s)
  unfolding append_user_message
  prompted-IsReady none s h = h
  prompted-IsReady (some text) s h = record {
    is_of = record { same_run = h.is_of.same_run; same_workspace = h.is_of.same_workspace };
    transcript =
        Step-IsTranscript {s = s} (milky_frog_lite.Transcript.Roles.says text) h.transcript;
  }

  seal-IsReady : (s : RunState) → IsReady id workspace s → IsReady id workspace (seal s).0
  seal-IsReady s h = record {
    is_of = record {
      same_run = rw (seal_lem s) h.is_of.same_run;
      same_workspace = rw (seal_lem s) h.is_of.same_workspace;
    };
    transcript = Step-IsTranscript {s = s} milky_frog_lite.Transcript.Roles.seals h.transcript;
  }

  pub repaired-IsReady :
      (awaiting : Bool) (prompt : Option String) (s : RunState)
      → IsReady id workspace s
      → IsReady id workspace (repaired awaiting prompt s)
  unfolding repaired
  repaired-IsReady true prompt s h = h
  repaired-IsReady false prompt s h = prompted-IsReady prompt (seal s).0 (seal-IsReady s h)
