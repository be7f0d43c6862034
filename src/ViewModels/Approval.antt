-- ===== src/ViewModels/Approval.antt =====
-- tui/viewmodels/approval_vm.py: the prompt that collects the user's verdicts on a batch of Tool
-- calls, and hands them to the session when every call has one. The texts that are appended to the
-- conversation, and the focus and the placeholder of the input line, are display only.
pub mod TypedText
pub mod Counting
pub mod Asking
pub mod Answers
use milky_frog_lite.Prelude.{
  ◌∷◌, ◌++◌, length, get_elem?, str_eq, ◌||◌, some, String, Option, Bool, List, none, Dict, false,
  [], drop, find, ℕ, assign, ◌+◌, true, if◌then◌else◌, suc,
}
use milky_frog_lite.Domain.Approval.{ApprovalDecision, approve, deny, ApprovalVerdict}
use milky_frog_lite.Policy.{SessionToolPolicy, auto_approve, allow_tool}

pub record PendingApproval : Type 0 where
  pub call_id : String
  pub tool_name : String
  pub reason : String

pub record ApprovalRequired : Type 0 where
  pub run_id : String
  pub approvals : List PendingApproval

-- The widget, by what it shows.
pub record ApprovalPrompt : Type 0 where
  pub tool_name : String
  pub reason : String
  pub position : ℕ
  pub total : ℕ

-- What the view model changes of the App: its session and its input line; and the workers that
-- `_start_approvals` started, the newest last.
pub record TuiHost : Type 0 where
  pub pending_approval : Option String
  pub busy : Bool
  pub policy : SessionToolPolicy
  pub input_disabled : Bool
  pub started : List (String × Dict ApprovalVerdict)

pub record ApprovalViewModel : Type 0 where
  pub app : TuiHost
  pub pending : Option ApprovalRequired
  pub position : ℕ
  pub verdicts : Dict ApprovalVerdict
  pub widget : Option ApprovalPrompt
  pub deny_reason_mode : Bool

abbrev pub new_view_model : TuiHost → ApprovalViewModel
new_view_model app = record {
  app = app;
  pending = none;
  position = 0;
  verdicts = [];
  widget = none;
  deny_reason_mode = false;
}

abbrev pub approved : ApprovalVerdict
approved = record { decision = approve; denial_reason = none }

abbrev pub denied : Option String → ApprovalVerdict
denied reason = record { decision = deny; denial_reason = reason }

abbrev pub is_decided : Option ApprovalVerdict → Bool
is_decided none = false
is_decided (some _) = true

-- `call_id in self._verdicts`
abbrev pub has_verdict : Dict ApprovalVerdict → PendingApproval → Bool
has_verdict verdicts a = is_decided (find verdicts a.call_id)

abbrev pub current_of : Option ApprovalRequired → ℕ → Option PendingApproval
current_of none position = none
current_of (some event) position = get_elem? event.approvals position

abbrev pub current : ApprovalViewModel → Option PendingApproval
current s = current_of s.pending s.position

-- The loop, over the approvals from the cursor on.
unfoldable pub skip : Dict ApprovalVerdict → List PendingApproval → ℕ → ℕ
skip verdicts [] position = position
skip verdicts (a ∷ approvals) position = elim (has_verdict verdicts a) [
  | false ↦ position
  | true ↦ skip verdicts approvals (suc position)
]

unfoldable pub skip_decided : ApprovalViewModel → Option ApprovalRequired → ApprovalViewModel
unfolding skip
skip_decided s none = s
skip_decided s (some event) = record s {
  position = skip s.verdicts (drop s.position event.approvals) s.position;
}

unfoldable pub clear : ApprovalViewModel → ApprovalViewModel
clear s = record s {
  app = record (s.app) { pending_approval = none };
  pending = none;
  position = 0;
  verdicts = [];
  widget = none;
  deny_reason_mode = false;
}

-- `_start_approvals` of tui/app.py
unfoldable pub start_approvals : String → Dict ApprovalVerdict → TuiHost → TuiHost
start_approvals run_id verdicts app = record app {
  busy = true;
  input_disabled = true;
  started = app.started ++ (run_id, verdicts) ∷ [];
}

unfoldable pub dispatch_batch : ApprovalViewModel → Option ApprovalRequired → ApprovalViewModel
unfolding clear start_approvals
dispatch_batch s none = s
dispatch_batch s (some event) = record (clear s) {
  app = start_approvals event.run_id s.verdicts (clear s).app;
}

unfoldable pub present :
    ApprovalViewModel → Option PendingApproval → Option ApprovalRequired → ApprovalViewModel
unfolding dispatch_batch
present s none event = dispatch_batch s event
present s (some call) none = dispatch_batch s none
present s (some call) (some event) = record s {
  widget = some (record {
    tool_name = call.tool_name;
    reason = call.reason;
    position = s.position + 1;
    total = length event.approvals;
  });
  app = record (s.app) { input_disabled = true };
}

unfoldable pub show_current : ApprovalViewModel → ApprovalViewModel
unfolding skip_decided present
show_current s = let t = skip_decided s s.pending in present t (current t) t.pending

-- The state that `begin` shows the first call of.
abbrev pub begun : ApprovalRequired → ApprovalViewModel → ApprovalViewModel
begun event s = record s {
  app = record (s.app) { pending_approval = some event.run_id; busy = false };
  pending = some event;
  position = 0;
  verdicts = [];
  deny_reason_mode = false;
}

unfoldable pub begin : ApprovalRequired → ApprovalViewModel → ApprovalViewModel
unfolding show_current
begin event s = show_current (begun event s)

unfoldable pub record_verdict :
    ApprovalVerdict → ApprovalViewModel → Option PendingApproval → ApprovalViewModel
unfolding show_current
record_verdict verdict s none = s
record_verdict verdict s (some call) =
    show_current
      (record s { verdicts = assign s.verdicts call.call_id verdict; deny_reason_mode = false })

-- One round of the loops of `allow_tool` and `allow_all` after the other; `same` is the guard.
unfoldable pub approve_all :
    (PendingApproval → Bool) → List PendingApproval → Dict ApprovalVerdict → Dict ApprovalVerdict
approve_all same [] verdicts = verdicts
approve_all same (a ∷ approvals) verdicts =
    approve_all same approvals (if same a then assign verdicts a.call_id approved else verdicts)

abbrev pub allow_named : String → SessionToolPolicy → SessionToolPolicy
allow_named name policy = if str_eq name "" then policy else allow_tool policy name

unfoldable pub approve_from :
    (PendingApproval → Bool)
    → (SessionToolPolicy → SessionToolPolicy)
    → ApprovalRequired
    → ApprovalViewModel
    → ApprovalViewModel
unfolding show_current approve_all
approve_from same change event s = show_current (record s {
  app = record (s.app) { policy = change s.app.policy };
  verdicts = approve_all same (drop s.position event.approvals) s.verdicts;
})

unfoldable pub act :
    String
    → ApprovalViewModel
    → Option ApprovalRequired
    → Option PendingApproval
    → ApprovalViewModel
unfolding record_verdict approve_from allow_tool auto_approve
act action s none call = s
act action s (some event) none = s
act action s (some event) (some call) =
    if str_eq action "approve"
    then record_verdict approved s (current s)
    else if str_eq action "deny"
    then record_verdict (denied none) s (current s)
    else if str_eq action "allow_tool"
    then approve_from (λ a. str_eq a.tool_name call.tool_name) (allow_named call.tool_name) event s
    else if str_eq action "allow_all"
    then approve_from (λ _. true) auto_approve event s
    else s

-- `_apply_action`
unfoldable pub apply_action : String → ApprovalViewModel → ApprovalViewModel
unfolding act
apply_action action s = act action s s.pending (current s)

unfoldable pub begin_deny_reason : ApprovalViewModel → ApprovalViewModel
begin_deny_reason s = record s {
  app = record (s.app) { input_disabled = false };
  widget = none;
  deny_reason_mode = true;
}

unfoldable pub choose : String → ApprovalViewModel → Option ApprovalRequired → ApprovalViewModel
unfolding begin_deny_reason apply_action
choose action s none = s
choose action s (some event) =
    if str_eq action "deny_reason" then begin_deny_reason s else apply_action action s

unfoldable pub handle_option : String → ApprovalViewModel → ApprovalViewModel
unfolding choose
handle_option action s = choose action s s.pending
