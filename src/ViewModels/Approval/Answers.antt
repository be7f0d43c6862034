-- ===== src/ViewModels/Approval/Answers.antt =====
-- Every answer of the user decides one more call at least, so a batch is handed over in the end.
use milky_frog_lite.ViewModels.Approval.Counting.{
  undecided, approve_all-Grows, assign-Grows, Grows, undecided_less, assign_decides,
  approve_all_decides, undecided-cons,
}
use milky_frog_lite.Prelude.{
  String, Bool, ◌≡◌, Dict, List, some, true, ◌<◌, none, subst, drop, assign, eq_refl, ◌∷◌, sym,
  take, [], refl, str_eq, subst₂, ◌++◌, All, false, ◌≤◌, length, arith, ap,
}
use milky_frog_lite.Domain.Approval.{ApprovalVerdict}
use milky_frog_lite.Policy.{auto_approve, SessionToolPolicy}
use milky_frog_lite.ViewModels.Approval.{
  PendingApproval, ApprovalRequired, ApprovalViewModel, current, begin, begun, record_verdict,
  approve_all, approve_from, act, apply_action, allow_named, choose, handle_option, approved,
  denied, ApprovalVerdict, Dict, Bool, String,
}
use milky_frog_lite.ViewModels.Approval.Asking.{
  IsAsking, Shows, asks, dispatches, show_current-Shows, get_elem?-drop, AllDecided,
}

-- The choices of the menu that decide.
pub data IsAnswer (action : String) : Type 0 where
  by_approve : action ≡ "approve" → IsAnswer action
  by_deny : action ≡ "deny" → IsAnswer action
  by_allow_tool : action ≡ "allow_tool" → IsAnswer action
  by_allow_all : action ≡ "allow_all" → IsAnswer action

-- Fewer calls are undecided, and the prompt shows what is left.
record Progress (event : ApprovalRequired) (s t : ApprovalViewModel) : Type 0 where
  pub verdicts : Dict ApprovalVerdict
  shows : Shows event verdicts s.app.started t
  fewer : undecided verdicts event.approvals < undecided s.verdicts event.approvals

AllDecided-Grows :
    (v u : Dict ApprovalVerdict) (xs : List PendingApproval)
    → Grows v u
    → AllDecided v xs
    → AllDecided u xs
AllDecided-Grows v u [] g h = tt
AllDecided-Grows v u (x ∷ xs) g h = (g x h.0, AllDecided-Grows v u xs g h.1)

module _ (event : ApprovalRequired) (s : ApprovalViewModel) (h : IsAsking event s) where
  record_verdict-Progress :
      (verdict : ApprovalVerdict) → Progress event s (record_verdict verdict s (some h.call))
  unfolding record_verdict
  record_verdict-Progress verdict =
      let g = assign-Grows s.verdicts h.call.call_id verdict in
      record {
        verdicts = assign s.verdicts h.call.call_id verdict;
        shows =
            show_current-Shows event _ h.pending
              (AllDecided-Grows s.verdicts _ (take s.position event.approvals) g h.before);
        fewer =
            undecided_less s.verdicts _ event.approvals s.position h.call h.rest h.at_call g
              h.is_undecided (assign_decides s.verdicts verdict h.call);
      }

  approve_from-Progress :
      (same : PendingApproval → Bool) (change : SessionToolPolicy → SessionToolPolicy)
      → same h.call ≡ true
      → Progress event s (approve_from same change event s)
  unfolding approve_from
  approve_from-Progress same change e =
      let g = approve_all-Grows same (drop s.position event.approvals) s.verdicts in
      record {
        verdicts = approve_all same (drop s.position event.approvals) s.verdicts;
        shows =
            show_current-Shows event _ h.pending
              (AllDecided-Grows s.verdicts _ (take s.position event.approvals) g h.before);
        fewer =
            undecided_less s.verdicts _ event.approvals s.position h.call h.rest h.at_call g
              h.is_undecided (rw h.at_call (approve_all_decides same h.call h.rest s.verdicts e));
      }

  at_current : current s ≡ some h.call
  at_current =
      subst (λ o. current (record s { pending = o }) ≡ some h.call) (sym h.pending)
        (get_elem?-drop s.position event.approvals h.call h.rest h.at_call)

  act-Progress :
      (action : String)
      → IsAnswer action
      → Progress event s (act action s (some event) (some h.call))
  unfolding act
  act-Progress action (by_approve e) = rw (e, act, at_current) (record_verdict-Progress approved)
  act-Progress action (by_deny e) = rw (e, act, at_current) (record_verdict-Progress (denied none))
  act-Progress action (by_allow_tool e) =
      rw (e, act)
        (approve_from-Progress (λ a. str_eq a.tool_name h.call.tool_name)
          (allow_named h.call.tool_name) (eq_refl h.call.tool_name))
  act-Progress action (by_allow_all e) =
      rw (e, act) (approve_from-Progress (λ _. true) auto_approve refl)

  not_reason : (action : String) → IsAnswer action → str_eq action "deny_reason" ≡ false
  not_reason action (by_approve e) = rw e refl
  not_reason action (by_deny e) = rw e refl
  not_reason action (by_allow_tool e) = rw e refl
  not_reason action (by_allow_all e) = rw e refl

  handle_option-Progress :
      (action : String) → IsAnswer action → Progress event s (handle_option action s)
  unfolding handle_option choose apply_action
  handle_option-Progress action a =
      subst (λ o. Progress event s (choose action s o)) (sym h.pending)
        (rw (not_reason action a, choose)
          (subst₂ (λ o c. Progress event s (act action s o c)) (sym h.pending) (sym at_current)
            (act-Progress action a)))

-- One choice after the other.
abbrev pub choices : List String → ApprovalViewModel → ApprovalViewModel
choices [] s = s
choices (action ∷ actions) s = choices actions (handle_option action s)

idle_choice :
    (action : String) (s : ApprovalViewModel) → s.pending ≡ none → handle_option action s ≡ s
unfolding handle_option choose
idle_choice action s e = subst (λ o. choose action s o ≡ s) (sym e) refl

idle_choices :
    (actions : List String) (s : ApprovalViewModel) → s.pending ≡ none → choices actions s ≡ s
idle_choices [] s e = refl
idle_choices (action ∷ actions) s e =
    subst (λ t. choices actions t ≡ s) (sym (idle_choice action s e)) (idle_choices actions s e)

-- The batch was handed over, once, with a verdict for every call of it.
pub record HandedOver (event : ApprovalRequired) (started : List (String × Dict ApprovalVerdict))
    (s : ApprovalViewModel) : Type 0 where
  pub verdicts : Dict ApprovalVerdict
  pub idle : s.pending ≡ none
  pub complete : AllDecided verdicts event.approvals
  pub once : s.app.started ≡ started ++ (event.run_id, verdicts) ∷ []

module _ (event : ApprovalRequired) (started : List (String × Dict ApprovalVerdict)) where
  choices-HandedOver :
      (actions : List String) (s : ApprovalViewModel) (v : Dict ApprovalVerdict)
      → Shows event v started s
      → All IsAnswer actions
      → undecided v event.approvals ≤ length actions
      → HandedOver event started (choices actions s)
  choices-HandedOver actions s v (dispatches idle complete once) a n =
      subst (HandedOver event started) (sym (idle_choices actions s idle))
        record { verdicts = v; idle = idle; complete = complete; once = once }
  choices-HandedOver [] s v (asks h e same) a n =
      let less =
        undecided_less s.verdicts (assign s.verdicts h.call.call_id approved) event.approvals
          s.position h.call h.rest h.at_call (assign-Grows s.verdicts h.call.call_id approved)
          h.is_undecided (assign_decides s.verdicts approved h.call) in
      absurd (omega (arith, less, ap (λ u. undecided u event.approvals) e, n))
  choices-HandedOver (action ∷ actions) s v (asks h e same) a n =
      let p = handle_option-Progress event s h action a.0 in
      choices-HandedOver actions (handle_option action s) p.verdicts
        (subst (λ l. Shows event p.verdicts l (handle_option action s)) same p.shows) a.1
        (omega (arith, p.fewer, ap (λ u. undecided u event.approvals) e, n))

undecided_le : (v : Dict ApprovalVerdict) (xs : List PendingApproval) → undecided v xs ≤ length xs
undecided_le v [] = omega arith
undecided_le v (x ∷ xs) = ground (arith, undecided_le v xs, undecided-cons v x xs)

-- A batch that is begun is handed over to the session, exactly once and with a verdict for each of
-- its calls, when the user has made as many deciding choices as it has calls, whatever they are.
pub begin-HandedOver :
    (event : ApprovalRequired) (s : ApprovalViewModel) (actions : List String)
    → All IsAnswer actions
    → length event.approvals ≤ length actions
    → HandedOver event s.app.started (choices actions (begin event s))
unfolding begin
begin-HandedOver event s actions a n =
    choices-HandedOver event s.app.started actions (begin event s) []
      (show_current-Shows event (begun event s) refl tt) a
      (let l = undecided_le [] event.approvals in omega (arith, l, n))
