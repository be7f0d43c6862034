-- ===== src/Checkpoint/Rows.antt =====
-- Reading what the statements of checkpoint/sqlite.py write.
use milky_frog_lite.Snapshot.Roundtrip.{load_run_state-dump_run_state}
use milky_frog_lite.Transcript.Roles.{IsTranscript}
use milky_frog_lite.Domain.Run.{RunState, RunStatus}
use milky_frog_lite.Prelude.{
  Bool, String, List, [], ◌∷◌, Option, none, some, ◌≡◌, if◌then◌else◌, str_eq, ℕ, Bool-cases, inl,
  true, inr, ap₂, subst, false, refl, ap, eq_of_some-eq, ok, ◌∙◌, sym, eq_iff, subst₂,
}
use milky_frog_lite.Snapshot.{Codec, load_run_state, dump_run_state}
use milky_frog_lite.Checkpoint.{
  Row, find_row, update_where, save_state, saved_row, load_state, str_eq, ℕ, true, RunState,
  RunStatus, false, ok, load_run_state, decoded, has_id, dump_run_state,
}

module _ (codec : Codec) where
  -- The ids of the table, its PRIMARY KEY.
  unfoldable pub ids : List (Row codec) → List String
  ids [] = []
  ids (r ∷ rs) = r.stored.run_id ∷ ids rs

  abbrev pub map_row : (Row codec → Row codec) → Option (Row codec) → Option (Row codec)
  map_row f none = none
  map_row f (some r) = some (f r)

  abbrev pub KeepsId : (Row codec → Row codec) → Type 0
  KeepsId change = (r : Row codec) → (change r).stored.run_id ≡ r.stored.run_id

  pub find_row-update_where :
      (p : Row codec → Bool) (change : Row codec → Row codec) (rows : List (Row codec))
      (id : String)
      → KeepsId change
      → find_row codec (update_where codec p change rows) id
        ≡ map_row (λ r. if p r then change r else r) (find_row codec rows id)
  unfolding find_row update_where
  find_row-update_where p change [] id k = refl
  find_row-update_where p change (r ∷ rs) id k = elim (Bool-cases (p r)) [
    | inl h ↦ elim (Bool-cases (str_eq r.stored.run_id id)) [
      | inl e ↦ rw (h, ap (λ x. str_eq x id) (k r) ∙ e, e) (rw h)
      | inr e ↦ rw (h, ap (λ x. str_eq x id) (k r) ∙ e, e) (find_row-update_where p change rs id k)
    ]
    | inr h ↦ elim (Bool-cases (str_eq r.stored.run_id id)) [
      | inl e ↦ rw (h, e) (rw h)
      | inr e ↦ rw (h, e) (find_row-update_where p change rs id k)
    ]
  ]

  pub ids-update_where :
      (p : Row codec → Bool) (change : Row codec → Row codec) (rows : List (Row codec))
      → KeepsId change
      → ids (update_where codec p change rows) ≡ ids rows
  unfolding ids update_where
  ids-update_where p change [] k = refl
  ids-update_where p change (r ∷ rs) k = elim (Bool-cases (p r)) [
    | inl h ↦ rw h (ap₂ (λ x xs. x ∷ xs) (k r) (ids-update_where p change rs k))
    | inr h ↦ rw h (ap (λ xs. r.stored.run_id ∷ xs) (ids-update_where p change rs k))
  ]

  pub run_id-find_row :
      (rows : List (Row codec)) (id : String) (r : Row codec)
      → find_row codec rows id ≡ some r
      → str_eq r.stored.run_id id ≡ true
  unfolding find_row
  run_id-find_row [] id r h = cc
  run_id-find_row (x ∷ rs) id r h = elim (Bool-cases (str_eq x.stored.run_id id)) [
    | inl e ↦
        subst (λ (y : Row codec). str_eq y.stored.run_id id ≡ true) (eq_of_some-eq (rw e at h)) e
    | inr e ↦ run_id-find_row rs id r (rw e at h)
  ]

  saved_row-KeepsId :
      (now : ℕ) (state : RunState) (status : Option RunStatus) (message : Option String)
      → KeepsId (saved_row codec now state status message)
  unfolding saved_row
  saved_row-KeepsId now state status message r = refl

  -- The row of a Run after `save_state`, and the rows of the other Runs.
  pub find_row-save_state :
      (rows : List (Row codec)) (now : ℕ) (id j : String) (state : RunState)
      → (status : Option RunStatus) (message : Option String)
      → find_row codec (save_state codec rows now id state status message) j
        ≡ map_row
            (λ r.
              if str_eq r.stored.run_id id then saved_row codec now state status message r else r)
            (find_row codec rows j)
  unfolding save_state
  find_row-save_state rows now id j state status message =
      find_row-update_where (has_id codec id) (saved_row codec now state status message) rows j
        (saved_row-KeepsId now state status message)

  pub loaded_back :
      (id workspace : String) (state : RunState)
      → state.run_id ≡ id
      → state.workspace ≡ workspace
      → IsTranscript state.messages
      → load_run_state codec id workspace (dump_run_state codec state) ≡ some state
  loaded_back id workspace state e w t =
      subst₂ (λ i v. load_run_state codec i v (dump_run_state codec state) ≡ some state) e w
        (load_run_state-dump_run_state codec state t)

  -- A state that is saved for a Run is the state that is loaded, if it bears the Run's id and
  -- Workspace and its transcript is well formed.
  pub load_state-save_state :
      (rows : List (Row codec)) (now : ℕ) (id : String) (state : RunState)
      → (status : Option RunStatus) (message : Option String) (r : Row codec)
      → find_row codec rows id ≡ some r
      → state.run_id ≡ id
      → state.workspace ≡ r.stored.workspace
      → IsTranscript state.messages
      → load_state codec (save_state codec rows now id state status message) id ≡ ok state
  unfolding load_state decoded saved_row
  load_state-save_state rows now id state status message r found e w t =
      rw
        (
          find_row-save_state rows now id id state status message,
          found,
          run_id-find_row rows id r found,
        )
        (rw (loaded_back id r.stored.workspace state e w t, decoded))

  map_row_other :
      (id j : String) (change : Row codec → Row codec) (o : Option (Row codec))
      → ((r : Row codec) → o ≡ some r → str_eq r.stored.run_id id ≡ false)
      → map_row (λ r. if str_eq r.stored.run_id id then change r else r) o ≡ o
  map_row_other id j change none h = refl
  map_row_other id j change (some r) h = rw (h r refl)

  -- Saving one Run leaves what is stored of every other Run.
  pub get_run-save_state_ne :
      (rows : List (Row codec)) (now : ℕ) (id j : String) (state : RunState)
      → (status : Option RunStatus) (message : Option String) → str_eq j id ≡ false
      → find_row codec (save_state codec rows now id state status message) j ≡ find_row codec rows j
  get_run-save_state_ne rows now id j state status message ne =
      find_row-save_state rows now id j state status message
      ∙ map_row_other id j (saved_row codec now state status message) (find_row codec rows j)
          (λ r found.
            subst (λ x. str_eq x id ≡ false) (sym ((eq_iff _ _).0 (run_id-find_row rows j r found)))
              ne)
