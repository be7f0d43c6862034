-- ===== src/Checkpoint/Examples.antt =====
-- Instances of the store's theorems, over snapshots kept as they are.
use milky_frog_lite.Checkpoint.Facade.{seal_interrupt, seal_interrupt_running}
use milky_frog_lite.Checkpoint.Prune.{find_row-prune}
use milky_frog_lite.Checkpoint.Resume.{prepare_resume_ok, prepare_resume_once}
use milky_frog_lite.Checkpoint.Rows.{ids, load_state-save_state, get_run-save_state_ne}
use milky_frog_lite.Prelude.{refl, some, ◌≡◌, [], ◌∷◌, inl, String, List, ok, none, false, err, ℕ}
use milky_frog_lite.Domain.Json.{empty}
use milky_frog_lite.Domain.Message.{plain_message, user, ToolCall}
use milky_frog_lite.Domain.Run.{RunState, new_state, running, completed, RunStatus, cancelled}
use milky_frog_lite.Snapshot.{Codec, dump_run_state, RunSnapshot, to_snapshot, load_run_state}
use milky_frog_lite.Checkpoint.{
  Row, save_state, prune, List, find_row, prepare_resume, String, ok, load_state, RunStatus,
  update_where, none, is_stale, err, ℕ, is_unchanged, decoded, false, resumed_row, changed_error,
  load_run_state, StoredRun, get_run,
}
use milky_frog_lite.Transcript.{synthetic_message, seal, unmatched_tool_calls}

abbrev verbatim : Codec
verbatim = record {
  Encoded = RunSnapshot;
  encode = λ s. s;
  decode = λ s. some s;
  decode-encode = λ s h. refl;
}

abbrev call : ToolCall
call = record { id = "c"; name = "bash"; arguments = empty }

-- A Run that was interrupted while a Tool ran.
abbrev state : RunState
state = record (new_state "a" "/w") {
  messages = plain_message user "go" ∷ synthetic_message call ∷ [];
}

abbrev stored_run : String → RunStatus → ℕ → StoredRun
stored_run id status at = record {
  run_id = id;
  workspace = "/w";
  status = status;
  created_at = 1;
  updated_at = at;
  final_message = none;
}

abbrev row : String → RunStatus → ℕ → Row verbatim
row id status at = record { stored = stored_run id status at; state_json = to_snapshot state }

abbrev rows : List (Row verbatim)
rows = row "a" running 5 ∷ row "b" completed 3 ∷ []

load_state-save_state_example :
    load_state verbatim (save_state verbatim rows 9 "a" state none none) "a" ≡ ok state
unfolding find_row to_snapshot
load_state-save_state_example =
    load_state-save_state verbatim rows 9 "a" state none none (row "a" running 5) refl refl refl
      ((refl, refl, refl), ((refl, λ h. refl), tt))

get_run-save_state_ne_example :
    find_row verbatim (save_state verbatim rows 9 "a" state none none) "b"
    ≡ find_row verbatim rows "b"
get_run-save_state_ne_example = get_run-save_state_ne verbatim rows 9 "a" "b" state none none refl

abbrev resumed : List (Row verbatim)
resumed = update_where verbatim (is_unchanged verbatim "a" 5) (resumed_row verbatim 9 state) rows

prepare_resume_ok_example :
    (rows' : List (Row verbatim)) × (prepare_resume verbatim rows 9 "a" 5 state
      ≡ ok (rows', record (stored_run "a" running 5) { status = running; updated_at = 9 }))
    × (find_row verbatim rows' "a"
        ≡ some record {
          stored = record (stored_run "a" running 5) { status = running; updated_at = 9 };
          state_json = dump_run_state verbatim state;
        })
    × (load_state verbatim rows' "a" ≡ ok state)
    × (ids verbatim rows' ≡ ids verbatim rows)
unfolding find_row to_snapshot
prepare_resume_ok_example =
    prepare_resume_ok verbatim rows 9 "a" 5 state (row "a" running 5) refl refl refl refl
      ((refl, refl, refl), ((refl, λ h. refl), tt))

resumes : prepare_resume verbatim rows 9 "a" 5 state ≡ ok (resumed, stored_run "a" running 9)
unfolding prepare_resume find_row
resumes = refl

prepare_resume_once_example :
    prepare_resume verbatim resumed 10 "a" 5 state ≡ err (changed_error "a")
unfolding find_row ids to_snapshot
prepare_resume_once_example =
    prepare_resume_once verbatim rows resumed 9 10 "a" 5 state state (row "a" running 5)
      (stored_run "a" running 9) (refl, (refl, tt)) refl refl refl resumes

prunes : prune verbatim rows 6 none false ≡ (row "a" running 5 ∷ [], 1)
unfolding prune is_stale
prunes = refl

find_row-prune_example :
    find_row verbatim (prune verbatim rows 6 none false).0 "a" ≡ some (row "a" running 5)
unfolding find_row
find_row-prune_example =
    find_row-prune verbatim rows 6 none false "a" (row "a" running 5) refl (inl refl)

seal_interrupt_running_example :
    (rows' : List (Row verbatim)) × (seal_interrupt verbatim rows 9 "a" "interrupted" ≡ ok rows')
    × (get_run verbatim rows' "a"
        ≡ some (record (stored_run "a" running 5) {
          status = cancelled;
          updated_at = 9;
          final_message = some "interrupted";
        }))
    × (load_state verbatim rows' "a" ≡ ok (seal state).0)
    × (unmatched_tool_calls (seal state).0.messages ≡ [])
unfolding find_row load_state decoded load_run_state to_snapshot
seal_interrupt_running_example =
    seal_interrupt_running verbatim rows 9 "a" "interrupted" (row "a" running 5) state refl refl
      refl refl refl ((refl, refl, refl), ((refl, λ h. refl), tt))
