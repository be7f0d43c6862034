-- ===== src/ViewModels/Approval/Asking.antt =====
-- While a batch waits for its verdicts, the prompt asks for a call that has none; when every call
-- has one, the batch is handed over.
use milky_frog_lite.ViewModels.Approval.Counting.{not_cons}
use milky_frog_lite.Domain.Approval.{ApprovalVerdict}
use milky_frog_lite.Prelude.{
  Dict, ◌≡◌, ℕ, take, some, List, get_elem?, subst, drop, All, none, true, ◌++◌, [], sym, ◌∷◌,
  Bool-cases, suc, false, refl, inl, zero, ap, All-append, inr, String,
}
use milky_frog_lite.ViewModels.Approval.{
  PendingApproval, ApprovalRequired, ApprovalViewModel, has_verdict, skip, skip_decided,
  show_current, present, dispatch_batch, clear, start_approvals, Dict, ℕ, ApprovalVerdict,
}

abbrev pub AllDecided : Dict ApprovalVerdict → List PendingApproval → Type 0
AllDecided v approvals = All (λ a. has_verdict v a ≡ true) approvals

-- The prompt stands at a call without a verdict, and every call before it has one.
pub record IsAsking (event : ApprovalRequired) (s : ApprovalViewModel) : Type 0 where
  pub pending : s.pending ≡ some event
  pub call : PendingApproval
  pub rest : List PendingApproval
  pub at_call : drop s.position event.approvals ≡ call ∷ rest
  pub is_undecided : has_verdict s.verdicts call ≡ false
  pub before : AllDecided s.verdicts (take s.position event.approvals)

-- Of the verdicts given so far, the prompt shows the next call, or hands the batch over.
pub data Shows (event : ApprovalRequired) (v : Dict ApprovalVerdict)
    (started : List (String × Dict ApprovalVerdict)) : ApprovalViewModel → Type 0 where
  asks :
      {s : ApprovalViewModel}
      → IsAsking event s
      → s.verdicts ≡ v
      → s.app.started ≡ started
      → Shows event v started s
  dispatches :
      {s : ApprovalViewModel}
      → s.pending ≡ none
      → AllDecided v event.approvals
      → s.app.started ≡ started ++ (event.run_id, v) ∷ []
      → Shows event v started s

drop_step :
    (i : ℕ) (xs : List PendingApproval) (x : PendingApproval) (r : List PendingApproval)
    → drop i xs ≡ x ∷ r
    → (drop (suc i) xs ≡ r) × (take (suc i) xs ≡ take i xs ++ x ∷ []) × (get_elem? xs i ≡ some x)
drop_step zero [] x r h = absurd (not_cons h)
drop_step (suc i) [] x r h = absurd (not_cons h)
drop_step zero (y ∷ ys) x r h = (cc, cc, cc)
drop_step (suc i) (y ∷ ys) x r h = let (d, t, g) = drop_step i ys x r h in (d, ap (λ l. y ∷ l) t, g)

pub get_elem?-drop :
    (i : ℕ) (xs : List PendingApproval) (x : PendingApproval) (r : List PendingApproval)
    → drop i xs ≡ x ∷ r
    → get_elem? xs i ≡ some x
get_elem?-drop i xs x r h = (drop_step i xs x r h).2

past_end : (i : ℕ) (xs : List PendingApproval) → drop i xs ≡ [] → get_elem? xs i ≡ none
past_end zero [] h = refl
past_end (suc i) [] h = refl
past_end zero (y ∷ ys) h = absurd (not_cons (sym h))
past_end (suc i) (y ∷ ys) h = past_end i ys h

all_taken : (i : ℕ) (xs : List PendingApproval) → drop i xs ≡ [] → take i xs ≡ xs
all_taken zero [] h = refl
all_taken (suc i) [] h = refl
all_taken zero (y ∷ ys) h = absurd (not_cons (sym h))
all_taken (suc i) (y ∷ ys) h = ap (λ l. y ∷ l) (all_taken i ys h)

-- Where the cursor comes to stand.
data Stands (v : Dict ApprovalVerdict) (approvals : List PendingApproval) (p : ℕ) : Type 0 where
  on_call :
      (call : PendingApproval) (rest : List PendingApproval)
      → drop p approvals ≡ call ∷ rest
      → has_verdict v call ≡ false
      → AllDecided v (take p approvals)
      → Stands v approvals p
  at_end : drop p approvals ≡ [] → AllDecided v (take p approvals) → Stands v approvals p

module _ (v : Dict ApprovalVerdict) (approvals : List PendingApproval) where
  skip-Stands :
      (xs : List PendingApproval) (p : ℕ)
      → drop p approvals ≡ xs
      → AllDecided v (take p approvals)
      → Stands v approvals (skip v xs p)
  unfolding skip
  skip-Stands [] p d a = at_end d a
  skip-Stands (x ∷ xs) p d a = elim (Bool-cases (has_verdict v x)) [
    | inl e ↦
        let (d', t, _) = drop_step p approvals x xs d in
        rw (e, skip)
          (skip-Stands xs (suc p) d'
            (subst (AllDecided v) (sym t) (All-append _ (take p approvals) (x ∷ []) a (e, tt))))
    | inr e ↦ rw (e, skip) (on_call x xs d e a)
  ]

module _ (event : ApprovalRequired) where
  abbrev at_cursor : ApprovalViewModel → ℕ → ApprovalViewModel
  at_cursor s p = record s { pending = some event; position = p }

  present-Shows :
      (s : ApprovalViewModel) (p : ℕ)
      → Stands s.verdicts event.approvals p
      → Shows event s.verdicts s.app.started
          (present (at_cursor s p) (get_elem? event.approvals p) (some event))
  unfolding present dispatch_batch clear start_approvals
  present-Shows s p (on_call call rest d u b) =
      rw (get_elem?-drop p event.approvals call rest d, present)
        (asks
          record {
            pending = refl;
            call = call;
            rest = rest;
            at_call = d;
            is_undecided = u;
            before = b;
          }
          refl refl)
  present-Shows s p (at_end d b) =
      rw (past_end p event.approvals d, present)
        (dispatches refl (subst (AllDecided s.verdicts) (all_taken p event.approvals d) b) refl)

  shown-Shows :
      (s : ApprovalViewModel)
      → AllDecided s.verdicts (take s.position event.approvals)
      → Shows event s.verdicts s.app.started (show_current (record s { pending = some event }))
  unfolding show_current skip_decided
  shown-Shows s a =
      present-Shows s _
        (skip-Stands s.verdicts event.approvals (drop s.position event.approvals) s.position refl a)

  pub show_current-Shows :
      (s : ApprovalViewModel)
      → s.pending ≡ some event
      → AllDecided s.verdicts (take s.position event.approvals)
      → Shows event s.verdicts s.app.started (show_current s)
  show_current-Shows s e a =
      subst (λ o. Shows event s.verdicts s.app.started (show_current (record s { pending = o })))
        (sym e) (shown-Shows s a)
