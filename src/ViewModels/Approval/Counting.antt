-- ===== src/ViewModels/Approval/Counting.antt =====
-- The calls of a batch that have no verdict yet, and how the verdicts grow.
use milky_frog_lite.Domain.Approval.{ApprovalVerdict}
use milky_frog_lite.Prelude.{
  Dict, Bool, suc, List, ◌≡◌, ◌≤◌, ℕ, String, ◌∷◌, assign, true, drop, length, arith, [],
  if◌then◌else◌, ◌+◌, false, filter, str_eq, ◌∙◌, eq_refl, Bool-cases, ◌<◌, not, refl, inl, inr, ap,
  find-assign, zero,
}
use milky_frog_lite.ViewModels.Approval.{
  PendingApproval, has_verdict, is_decided, approve_all, approved, Dict, Bool, ApprovalVerdict,
}

-- How many calls have no verdict.
abbrev pub undecided : Dict ApprovalVerdict → List PendingApproval → ℕ
undecided verdicts approvals = length (filter (λ a. not (has_verdict verdicts a)) approvals)

-- What has a verdict keeps one.
abbrev pub Grows : Dict ApprovalVerdict → Dict ApprovalVerdict → Type 0
Grows v u = (a : PendingApproval) → has_verdict v a ≡ true → has_verdict u a ≡ true

pub has_verdict-assign :
    (v : Dict ApprovalVerdict) (id : String) (x : ApprovalVerdict) (a : PendingApproval)
    → has_verdict (assign v id x) a ≡ (if str_eq id a.call_id then true else has_verdict v a)
has_verdict-assign v id x a = elim (Bool-cases (str_eq id a.call_id)) [
  | inl e ↦ ap is_decided (find-assign v id a.call_id x) ∙ rw e refl
  | inr e ↦ ap is_decided (find-assign v id a.call_id x) ∙ rw e refl
]

pub assign-Grows :
    (v : Dict ApprovalVerdict) (id : String) (x : ApprovalVerdict) → Grows v (assign v id x)
assign-Grows v id x a h = ground (arith, has_verdict-assign v id x a)

pub assign_decides :
    (v : Dict ApprovalVerdict) (x : ApprovalVerdict) (a : PendingApproval)
    → has_verdict (assign v a.call_id x) a ≡ true
assign_decides v x a = has_verdict-assign v a.call_id x a ∙ rw (eq_refl a.call_id) refl

round-Grows :
    (b : Bool) (v : Dict ApprovalVerdict) (id : String)
    → Grows v (if b then assign v id approved else v)
round-Grows true v id = assign-Grows v id approved
round-Grows false v id = λ a h. h

pub approve_all-Grows :
    (same : PendingApproval → Bool) (xs : List PendingApproval) (v : Dict ApprovalVerdict)
    → Grows v (approve_all same xs v)
unfolding approve_all
approve_all-Grows same [] v = λ a h. h
approve_all-Grows same (x ∷ xs) v =
    λ a h. approve_all-Grows same xs _ a (round-Grows (same x) v x.call_id a h)

pub approve_all_decides :
    (same : PendingApproval → Bool) (x : PendingApproval) (xs : List PendingApproval)
    → (v : Dict ApprovalVerdict) → same x ≡ true
    → has_verdict (approve_all same (x ∷ xs) v) x ≡ true
unfolding approve_all
approve_all_decides same x xs v h =
    approve_all-Grows same xs _ x (rw h (assign_decides v approved x))

pub undecided-cons :
    (v : Dict ApprovalVerdict) (x : PendingApproval) (xs : List PendingApproval)
    → undecided v (x ∷ xs) ≡ (if has_verdict v x then 0 else 1) + undecided v xs
undecided-cons v x xs = elim (Bool-cases (has_verdict v x)) [
  | inl e ↦ rw e (omega arith)
  | inr e ↦ rw e (omega arith)
]

undecided-Grows :
    (v u : Dict ApprovalVerdict) (xs : List PendingApproval)
    → Grows v u
    → undecided u xs ≤ undecided v xs
undecided-Grows v u [] g = omega arith
undecided-Grows v u (x ∷ xs) g =
    ground (arith, undecided-Grows v u xs g, undecided-cons v x xs, undecided-cons u x xs, g x)

pub not_cons : {x : PendingApproval} {xs : List PendingApproval} → [] ≡ x ∷ xs → ⊥
not_cons h = cc

-- Where the verdicts grow by one for a call of the batch, fewer calls have none.
pub undecided_less :
    (v u : Dict ApprovalVerdict) (xs : List PendingApproval) (i : ℕ) (x : PendingApproval)
    → (rest : List PendingApproval) → drop i xs ≡ x ∷ rest
    → Grows v u
    → has_verdict v x ≡ false
    → has_verdict u x ≡ true
    → undecided u xs < undecided v xs
undecided_less v u [] zero x rest d g h k = absurd (not_cons d)
undecided_less v u [] (suc i) x rest d g h k = absurd (not_cons d)
undecided_less v u (y ∷ ys) zero x rest d g h k =
    let e : y ≡ x = cc in
    let a : has_verdict v y ≡ false = rw e h in
    let b : has_verdict u y ≡ true = rw e k in
    ground (arith, undecided-Grows v u ys g, undecided-cons v y ys, undecided-cons u y ys, a, b)
undecided_less v u (y ∷ ys) (suc i) x rest d g h k = ground (
  arith,
  undecided_less v u ys i x rest d g h k,
  undecided-cons v y ys,
  undecided-cons u y ys,
  g y,
)
