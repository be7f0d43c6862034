-- ===== src/Checkpoint/Resume.antt =====
-- `prepare_resume` of checkpoint/sqlite.py: the compare-and-set that lets one resumer win.
use milky_frog_lite.Domain.Run.{RunState, running}
use milky_frog_lite.Prelude.{
  String, List, [], ◌∷◌, some, ◌≡◌, contains, AreDistinct, ℕ, ◌==◌, true, length, filter, false,
  Bool-cases, inl, arith, inr, str_eq, eq_of_some-eq, subst, sym, false≢true, refl, eq_iff, err, ok,
  ◌∙◌, ap, eq_of_ok-eq,
}
use milky_frog_lite.Snapshot.{Codec, dump_run_state}
use milky_frog_lite.Transcript.Roles.{IsTranscript}
use milky_frog_lite.Checkpoint.{
  Row, find_row, load_state, decoded, update_where, ℕ, true, length, filter, is_unchanged, false,
  str_eq, prepare_resume, RunState, resumed_row, reread, err, StoredRun, ok, changed_error, running,
}
use milky_frog_lite.Checkpoint.Rows.{
  ids, loaded_back, find_row-update_where, KeepsId, run_id-find_row, ids-update_where,
}

module _ (codec : Codec) where
  none_unchanged_absent :
      (rows : List (Row codec)) (id : String) (expected : ℕ)
      → contains (ids codec rows) id ≡ false
      → filter (is_unchanged codec id expected) rows ≡ []
  unfolding ids
  none_unchanged_absent [] id expected h = refl
  none_unchanged_absent (r ∷ rs) id expected h = elim (Bool-cases (str_eq r.stored.run_id id)) [
    | inl e ↦ let h' : true ≡ false = rw e at h in cc
    | inr e ↦ rw e (none_unchanged_absent rs id expected (rw e at h))
  ]

  -- Distinct ids: the row that is found is the only one that the statement could update.
  none_unchanged :
      (rows : List (Row codec)) (id : String) (expected : ℕ) (r : Row codec)
      → AreDistinct (ids codec rows)
      → find_row codec rows id ≡ some r
      → (r.stored.updated_at == expected) ≡ false
      → filter (is_unchanged codec id expected) rows ≡ []
  unfolding ids find_row
  none_unchanged [] id expected r d found ne = refl
  none_unchanged (x ∷ rs) id expected r d found ne = elim (Bool-cases (str_eq x.stored.run_id id)) [
    | inl e ↦
        let same : x ≡ r = eq_of_some-eq (rw e at found) in
        let ne' : (x.stored.updated_at == expected) ≡ false =
          subst (λ (y : Row codec). (y.stored.updated_at == expected) ≡ false) (sym same) ne in
        let absent : contains (ids codec rs) id ≡ false =
          subst (λ i. contains (ids codec rs) i ≡ false) ((eq_iff _ _).0 e) d.0 in
        rw (e, ne') (none_unchanged_absent rs id expected absent)
    | inr e ↦ rw e (none_unchanged rs id expected r d.1 (rw e at found) ne)
  ]

  some_unchanged :
      (rows : List (Row codec)) (id : String) (expected : ℕ) (r : Row codec)
      → find_row codec rows id ≡ some r
      → (r.stored.updated_at == expected) ≡ true
      → (length (filter (is_unchanged codec id expected) rows) == 0) ≡ false
  unfolding find_row
  some_unchanged [] id expected r found same = cc
  some_unchanged (x ∷ rs) id expected r found same =
      elim (Bool-cases (is_unchanged codec id expected x)) [
        | inl u ↦ rw u (ground arith)
        | inr u ↦ elim (Bool-cases (str_eq x.stored.run_id id)) [
          | inl e ↦
              let x-eq : x ≡ r = eq_of_some-eq (rw e at found) in
              let at_x : (x.stored.updated_at == expected) ≡ true =
                subst (λ (y : Row codec). (y.stored.updated_at == expected) ≡ true) (sym x-eq)
                  same in
              absurd (false≢true (sym (rw (e, at_x) at u)))
          | inr e ↦ rw u (some_unchanged rs id expected r (rw e at found) same)
        ]
      ]

  resumed_row-KeepsId : (now : ℕ) (state : RunState) → KeepsId codec (resumed_row codec now state)
  unfolding resumed_row
  resumed_row-KeepsId now state r = refl

  abbrev resumed_rows : List (Row codec) → ℕ → String → ℕ → RunState → List (Row codec)
  resumed_rows rows now id expected state =
      update_where codec (is_unchanged codec id expected) (resumed_row codec now state) rows

  find_row-resumed :
      (rows : List (Row codec)) (now : ℕ) (id : String) (expected : ℕ) (state : RunState)
      → (r : Row codec) → find_row codec rows id ≡ some r
      → (r.stored.updated_at == expected) ≡ true
      → find_row codec (resumed_rows rows now id expected state) id
        ≡ some (resumed_row codec now state r)
  find_row-resumed rows now id expected state r found same =
      find_row-update_where codec (is_unchanged codec id expected) (resumed_row codec now state)
        rows id (resumed_row-KeepsId now state)
      ∙ rw (found, run_id-find_row codec rows id r found, same)

  -- What the row of a resumed Run is.
  resumed_run :
      (rows : List (Row codec)) (now : ℕ) (id : String) (expected : ℕ) (state : RunState)
      → (r : Row codec) → find_row codec rows id ≡ some r
      → (r.stored.updated_at == expected) ≡ true
      → (rows' : List (Row codec)) × (prepare_resume codec rows now id expected state
          ≡ ok (rows', record (r.stored) { status = running; updated_at = now }))
        × (find_row codec rows' id ≡ some (resumed_row codec now state r))
        × (ids codec rows' ≡ ids codec rows)
  unfolding prepare_resume resumed_row reread
  resumed_run rows now id expected state r found same = (
    resumed_rows rows now id expected state,
    rw (
      some_unchanged rows id expected r found same,
      find_row-resumed rows now id expected state r found same,
    ),
    find_row-resumed rows now id expected state r found same,
    ids-update_where codec (is_unchanged codec id expected) (resumed_row codec now state) rows
        (resumed_row-KeepsId now state),
  )

  -- If the Run is as it was when it was read, the resume succeeds: the Run is RUNNING from now on
  -- and nothing else of what its row tells is changed, its row holds the state given, which is
  -- loaded back, and the ids of the table are as they were. The state bears the id and the
  -- Workspace of the Run, and its transcript is well formed.
  pub prepare_resume_ok :
      (rows : List (Row codec)) (now : ℕ) (id : String) (expected : ℕ) (state : RunState)
      → (r : Row codec) → find_row codec rows id ≡ some r
      → (r.stored.updated_at == expected) ≡ true
      → state.run_id ≡ id
      → state.workspace ≡ r.stored.workspace
      → IsTranscript state.messages
      → (rows' : List (Row codec)) × (prepare_resume codec rows now id expected state
          ≡ ok (rows', record (r.stored) { status = running; updated_at = now }))
        × (find_row codec rows' id
            ≡ some record {
              stored = record (r.stored) { status = running; updated_at = now };
              state_json = dump_run_state codec state;
            })
        × (load_state codec rows' id ≡ ok state)
        × (ids codec rows' ≡ ids codec rows)
  unfolding resumed_row load_state decoded
  prepare_resume_ok rows now id expected state r found same own here well =
      let (rows', e, f, k) = resumed_run rows now id expected state r found same in
      (
        rows',
        e,
        f,
        rw f (rw (loaded_back codec id r.stored.workspace state own here well, decoded) refl),
        k,
      )

  -- If the Run was written since it was read, the resume is refused.
  pub prepare_resume_changed :
      (rows : List (Row codec)) (now : ℕ) (id : String) (expected : ℕ) (state : RunState)
      → (r : Row codec) → AreDistinct (ids codec rows)
      → find_row codec rows id ≡ some r
      → (r.stored.updated_at == expected) ≡ false
      → prepare_resume codec rows now id expected state ≡ err (changed_error id)
  unfolding prepare_resume
  prepare_resume_changed rows now id expected state r d found ne =
      rw (none_unchanged rows id expected r d found ne)

  -- Of two resumers that read the same row, the second is refused: the first has written the Run
  -- at another instant.
  pub prepare_resume_once :
      (rows rows' : List (Row codec)) (now later : ℕ) (id : String) (expected : ℕ)
      → (state state' : RunState) (r : Row codec) (stored : StoredRun)
      → AreDistinct (ids codec rows)
      → find_row codec rows id ≡ some r
      → (r.stored.updated_at == expected) ≡ true
      → (now == expected) ≡ false
      → prepare_resume codec rows now id expected state ≡ ok (rows', stored)
      → prepare_resume codec rows' later id expected state' ≡ err (changed_error id)
  unfolding resumed_row
  prepare_resume_once rows rows' now later id expected state state' r stored d found same moved h =
      let (rs, e, f, k) = resumed_run rows now id expected state r found same in
      let eq : rs ≡ rows' =
        ap (λ (p : List (Row codec) × StoredRun). p.0) (eq_of_ok-eq (sym e ∙ h)) in
      subst (λ rs'. prepare_resume codec rs' later id expected state' ≡ err (changed_error id)) eq
        (prepare_resume_changed rs later id expected state' (resumed_row codec now state r)
          (subst AreDistinct (sym k) d) f moved)
