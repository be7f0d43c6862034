-- ===== src/Checkpoint/Facade.antt =====
-- core/runtime/checkpoint.py and core/controller.py: the access point to the store that seals an
-- interrupted Run, and what attaching to a Run comes to.
use milky_frog_lite.Checkpoint.Rows.{find_row-save_state, run_id-find_row, load_state-save_state}
use milky_frog_lite.Transcript.Seal.{unmatched-seal, seal_lem}
use milky_frog_lite.Transcript.Roles.{IsTranscript, Step-IsTranscript, seals}
use milky_frog_lite.Domain.Message.{ToolCall}
use milky_frog_lite.Prelude.{
  ℕ, Bool, true, false, String, List, [], Option, none, some, ◌≡◌, Result, ok, err, ◌≢◌,
  if◌then◌else◌, refl, Option-cases, inl, inr, ap, ◌∙◌,
}
use milky_frog_lite.Domain.Run.{RunState, RunStatus, running, cancelled, waiting_for_approval}
use milky_frog_lite.Transcript.{seal, unmatched_tool_calls}
use milky_frog_lite.Snapshot.{Codec}
use milky_frog_lite.Checkpoint.{
  Row, find_row, get_run, load_state, save_state, StoreError, StoredRun, stored_of, saved_row,
}

abbrev is_running : RunStatus → Bool
is_running running = true
is_running _ = false

abbrev is_waiting : RunStatus → Bool
is_waiting waiting_for_approval = true
is_waiting _ = false

pub record AttachOutcome : Type 0 where
  pub run_id : String
  pub kind : String
  pub pending_calls : List ToolCall

module _ (codec : Codec) where
  sealed_rows :
      List (Row codec)
      → ℕ
      → String
      → String
      → Result StoreError RunState
      → Result StoreError (List (Row codec))
  sealed_rows rows now run_id reason (err e) = err e
  sealed_rows rows now run_id reason (ok state) =
      ok (save_state codec rows now run_id (seal state).0 (some cancelled) (some reason))

  seal_stored :
      List (Row codec)
      → ℕ
      → String
      → String
      → Option StoredRun
      → Result StoreError (List (Row codec))
  unfolding sealed_rows
  seal_stored rows now run_id reason none = ok rows
  seal_stored rows now run_id reason (some stored) =
      if is_running stored.status
      then sealed_rows rows now run_id reason (load_state codec rows run_id)
      else ok rows

  -- `seal_interrupt(run_id, reason=reason)`
  unfoldable pub seal_interrupt :
      List (Row codec) → ℕ → String → String → Result StoreError (List (Row codec))
  unfolding seal_stored
  seal_interrupt rows now run_id reason =
      seal_stored rows now run_id reason (get_run codec rows run_id)

  pending_outcome : String → Result StoreError RunState → Result StoreError AttachOutcome
  pending_outcome run_id (err e) = err e
  pending_outcome run_id (ok state) = ok (record {
    run_id = run_id;
    kind = "approval_pending";
    pending_calls = unmatched_tool_calls state.messages;
  })

  attach_stored :
      List (Row codec) → String → Bool → Option StoredRun → Result StoreError AttachOutcome
  unfolding pending_outcome
  attach_stored rows run_id advance_pending none = ok (record {
    run_id = run_id;
    kind = if advance_pending then "advance" else "attached";
    pending_calls = [];
  })
  attach_stored rows run_id advance_pending (some stored) =
      if is_waiting stored.status
      then pending_outcome run_id (load_state codec rows run_id)
      else ok (record {
        run_id = run_id;
        kind = if advance_pending then "advance" else "attached";
        pending_calls = [];
      })

  -- `RunController.attach`
  unfoldable pub attach :
      List (Row codec) → String → Option String → Bool → Result StoreError AttachOutcome
  unfolding attach_stored
  attach rows run_id (some prompt) advance_pending =
      ok (record { run_id = run_id; kind = "prompt_continue"; pending_calls = [] })
  attach rows run_id none advance_pending =
      attach_stored rows run_id advance_pending (get_run codec rows run_id)

  -- A Run that is RUNNING when its process is interrupted is stored CANCELLED, with the reason and
  -- with the sealed transcript, in which no Tool call waits for a result, if its stored state is
  -- loaded, bears the id and the Workspace of its row, and has a well-formed transcript.
  pub seal_interrupt_running :
      (rows : List (Row codec)) (now : ℕ) (id reason : String) (r : Row codec) (state : RunState)
      → find_row codec rows id ≡ some r
      → r.stored.status ≡ running
      → load_state codec rows id ≡ ok state
      → state.run_id ≡ id
      → state.workspace ≡ r.stored.workspace
      → IsTranscript state.messages
      → (rows' : List (Row codec)) × (seal_interrupt rows now id reason ≡ ok rows')
        × (get_run codec rows' id
            ≡ some (record (r.stored) {
              status = cancelled;
              updated_at = now;
              final_message = some reason;
            }))
        × (load_state codec rows' id ≡ ok (seal state).0)
        × (unmatched_tool_calls (seal state).0.messages ≡ [])
  unfolding seal_interrupt get_run stored_of saved_row
  seal_interrupt_running rows now id reason r state found run load e w t = (
    save_state codec rows now id (seal state).0 (some cancelled) (some reason),
    rw (found, run, load),
    rw (
      find_row-save_state codec rows now id id (seal state).0 (some cancelled) (some reason),
      found,
      run_id-find_row codec rows id r found,
    ),
    load_state-save_state codec rows now id (seal state).0 (some cancelled) (some reason) r found
        (ap (λ (p : RunState × Bool). p.0.run_id) (seal_lem state) ∙ e)
        (ap (λ (p : RunState × Bool). p.0.workspace) (seal_lem state) ∙ w)
        (Step-IsTranscript seals t),
    unmatched-seal state,
  )

  not_running : (s : RunStatus) → s ≢ running → is_running s ≡ false
  not_running running h = absurd (h refl)
  not_running _ h = refl

  -- A Run that is not RUNNING, or that the store does not know, is left as it is.
  pub seal_interrupt_other :
      (rows : List (Row codec)) (now : ℕ) (id reason : String)
      → ((r : Row codec) → find_row codec rows id ≡ some r → r.stored.status ≢ running)
      → seal_interrupt rows now id reason ≡ ok rows
  unfolding seal_interrupt get_run stored_of
  seal_interrupt_other rows now id reason h = elim (Option-cases (find_row codec rows id)) [
    | inl e ↦ rw e
    | inr (r, e) ↦ rw (e, not_running r.stored.status (h r e))
  ]
