-- ===== src/Checkpoint.antt =====
-- checkpoint/sqlite.py: the table `runs` and the statements of `SqliteCheckpointStore`. A row is
-- its columns; the instants of the clock are arguments, and so is the decoder of snapshots.
pub mod Rows
pub mod Facade
pub mod Resume
pub mod Prune
mod Examples
use text.Mathlib.Text.{starts_with}
use milky_frog_lite.Prelude.{
  ℕ, zero, suc, ◌+◌, Bool, true, false, not, ◌&&◌, ◌||◌, String, List, [], ◌∷◌, ◌++◌, Option, none,
  some, map, filter, length, take, ltb, leb, ◌==◌, str_eq, if◌then◌else◌, Result, ok, err,
}
use milky_frog_lite.Domain.Run.{
  RunState, RunStatus, running, waiting_for_input, waiting_for_approval, new_state, FilePath,
}
use milky_frog_lite.Snapshot.{Codec, dump_run_state, load_run_state}

-- checkpoint/base.py
pub record StoredRun : Type 0 where
  pub run_id : String
  pub workspace : FilePath
  pub status : RunStatus
  pub created_at : ℕ
  pub updated_at : ℕ
  pub final_message : Option String

-- What the statements raise: the IntegrityError of an INSERT, the LookupError of a missing Run, the
-- LookupError and the ValueError of `resolve_run_id`, the ValidationError of a snapshot that is not
-- read, and the RuntimeError of `prepare_resume`.
pub data StoreError : Type 0 where
  integrity_error : StoreError
  lookup_error value_error : String → StoreError
  validation_error : StoreError
  changed_error : String → StoreError

abbrev pub is_active : RunStatus → Bool
is_active running = true
is_active waiting_for_input = true
is_active waiting_for_approval = true
is_active _ = false

module _ (codec : Codec) where
  pub record Row : Type 0 where
    pub stored : StoredRun
    pub state_json : codec.Encoded

  -- `SELECT * FROM runs WHERE run_id = ?`
  unfoldable pub find_row : List Row → String → Option Row
  find_row [] run_id = none
  find_row (r ∷ rs) run_id = if str_eq r.stored.run_id run_id then some r else find_row rs run_id

  abbrev pub has_id : String → Row → Bool
  has_id run_id r = str_eq r.stored.run_id run_id

  -- `UPDATE runs SET ... WHERE ...`
  unfoldable pub update_where : (Row → Bool) → (Row → Row) → List Row → List Row
  update_where p change [] = []
  update_where p change (r ∷ rs) = (if p r then change r else r) ∷ update_where p change rs

  unfoldable pub stored_of : Option Row → Option StoredRun
  stored_of none = none
  stored_of (some r) = some r.stored

  unfoldable pub get_run : List Row → String → Option StoredRun
  unfolding stored_of
  get_run rows run_id = stored_of (find_row rows run_id)

  abbrev pub fresh_run : ℕ → String → FilePath → StoredRun
  fresh_run now run_id workspace = record {
    run_id = run_id;
    workspace = workspace;
    status = running;
    created_at = now;
    updated_at = now;
    final_message = none;
  }

  -- The new row comes last; `workspace` is resolved already.
  unfoldable pub create_run :
      List Row → ℕ → String → FilePath → Result StoreError (List Row × StoredRun)
  create_run rows now run_id workspace = elim (find_row rows run_id) [
    | some r ↦ err integrity_error
    | none ↦
        let stored = fresh_run now run_id workspace in
        ok (
          rows
              ++ record {
                stored = stored;
                state_json = dump_run_state codec (new_state run_id workspace);
              }
                ∷ [],
          stored,
        )
  ]

  -- `COALESCE(?, column)`
  abbrev pub coalesce {ℓ} : {A : Type ℓ} → Option A → A → A
  coalesce none old = old
  coalesce (some new) old = new

  abbrev pub coalesce_null {ℓ} : {A : Type ℓ} → Option A → Option A → Option A
  coalesce_null none old = old
  coalesce_null (some new) old = some new

  unfoldable pub saved_row : ℕ → RunState → Option RunStatus → Option String → Row → Row
  saved_row now state status final_message r = record {
    stored = record (r.stored) {
      status = coalesce status r.stored.status;
      final_message = coalesce_null final_message r.stored.final_message;
      updated_at = now;
    };
    state_json = dump_run_state codec state;
  }

  unfoldable pub save_state :
      List Row → ℕ → String → RunState → Option RunStatus → Option String → List Row
  unfolding saved_row update_where
  save_state rows now run_id state status final_message =
      update_where (has_id run_id) (saved_row now state status final_message) rows

  unfoldable pub decoded : String → Option Row → Result StoreError RunState
  decoded run_id none = err (lookup_error run_id)
  decoded run_id (some r) = elim (load_run_state codec run_id r.stored.workspace r.state_json) [
    | none ↦ err validation_error
    | some state ↦ ok state
  ]

  unfoldable pub load_state : List Row → String → Result StoreError RunState
  unfolding decoded
  load_state rows run_id = decoded run_id (find_row rows run_id)

  unfoldable pub resumed_row : ℕ → RunState → Row → Row
  resumed_row now state r = record {
    stored = record (r.stored) { status = running; updated_at = now };
    state_json = dump_run_state codec state;
  }

  abbrev pub is_unchanged : String → ℕ → Row → Bool
  is_unchanged run_id expected r = has_id run_id r && r.stored.updated_at == expected

  unfoldable pub reread : String → List Row → Option Row → Result StoreError (List Row × StoredRun)
  reread run_id rows none = err (changed_error run_id)
  reread run_id rows (some r) = ok (rows, r.stored)

  -- `UPDATE ... WHERE run_id = ? AND updated_at = ?`; a `RuntimeError` if it updates no row.
  unfoldable pub prepare_resume :
      List Row → ℕ → String → ℕ → RunState → Result StoreError (List Row × StoredRun)
  unfolding resumed_row update_where reread
  prepare_resume rows now run_id expected_updated_at state =
      let updated =
        update_where (is_unchanged run_id expected_updated_at) (resumed_row now state) rows in
      if length (filter (is_unchanged run_id expected_updated_at) rows) == 0
      then err (changed_error run_id)
      else reread run_id updated (find_row updated run_id)

  -- `ORDER BY updated_at DESC`; rows of one instant keep the order of the table.
  insert_newest : Row → List Row → List Row
  insert_newest r [] = r ∷ []
  insert_newest r (s ∷ rs) =
      let later = s ∷ insert_newest r rs in
      if leb s.stored.updated_at r.stored.updated_at then r ∷ s ∷ rs else later

  newest_first : List Row → List Row
  unfolding insert_newest
  newest_first [] = []
  newest_first (r ∷ rs) = insert_newest r (newest_first rs)

  in_workspace : Option FilePath → Row → Bool
  in_workspace none r = true
  in_workspace (some w) r = str_eq r.stored.workspace w

  unfoldable pub list_runs : List Row → ℕ → Option FilePath → List StoredRun
  unfolding newest_first in_workspace
  list_runs rows limit workspace =
      map (λ (r : Row). r.stored) (take limit (newest_first (filter (in_workspace workspace) rows)))

  -- The `WHERE` clause of `prune`.
  unfoldable pub is_stale : ℕ → Option FilePath → Row → Bool
  unfolding in_workspace
  is_stale before workspace r =
      ltb r.stored.updated_at before && not (is_active r.stored.status) && in_workspace workspace r

  unfoldable pub prune : List Row → ℕ → Option FilePath → Bool → List Row × ℕ
  prune rows before workspace dry_run =
      let count = length (filter (is_stale before workspace) rows) in
      let kept = filter (λ r. not (is_stale before workspace r)) rows in
      (if not dry_run && ltb 0 count then kept else rows, count)

  the_match : String → List String → Result StoreError String
  the_match token [] = err (lookup_error token)
  the_match token (m ∷ []) = ok m
  the_match token (_ ∷ _ ∷ _) = err (value_error token)

  matching : List Row → String → List String
  matching rows token =
      filter (λ run_id. starts_with run_id token)
        (map (λ (s : StoredRun). s.run_id) (list_runs rows 100 none))

  -- An exact id, or the one of the hundred newest runs that starts with the token.
  unfoldable pub resolve_run_id : List Row → String → Result StoreError String
  unfolding the_match matching
  resolve_run_id rows token = elim (find_row rows token) [
    | some r ↦ ok r.stored.run_id
    | none ↦ the_match token (matching rows token)
  ]
