-- ===== src/Compaction/Progress.antt =====
-- What a compaction proposes: harness/compaction.py, `_on_before_model` and `force_compact`.
use milky_frog_lite.Compaction.Cutoff.{cutoff-IsCut}
use milky_frog_lite.Tokens.{TokenCounter, count_request_tokens}
use milky_frog_lite.Compaction.{
  already_folded, force_compact, on_before_model, FinalOf, propose_at, proposal, cutoff, length,
  force_cut, ModelRequest, some, Option, str_eq, ModelResponse, count_request_tokens, false, ltb,
  leb, suc, max, summary_request,
}
use milky_frog_lite.Prelude.{
  ℕ, ◌+◌, ◌<◌, ◌≤◌, ◌≡◌, length, str_eq, some, Option, false, Bool-cases, leb, inl, ltb, arith,
  none, ltb→lt, inr, refl, leb→lt, zero, max, eq_of_some-eq, subst,
}
use milky_frog_lite.Domain.Run.{RunState, Compacted, ModelRequest, ModelResponse}

-- A proposal that moves the boundary of the summary forward, inside the transcript, by as many
-- messages as it reports, with a summary that is not empty.
pub record Advances (state : RunState) (p : Compacted) : Type 0 where
  pub forward : already_folded state < p.compaction.through_index
  pub inside : p.compaction.through_index ≤ length state.messages
  pub folded : already_folded state + p.messages_folded ≡ p.compaction.through_index
  pub has_summary : str_eq p.compaction.summary "" ≡ false

proposal-Advances :
    (state : RunState) (cut : ℕ) (response : Option ModelResponse) (p : Compacted)
    → already_folded state < cut
    → cut ≤ length state.messages
    → proposal (already_folded state) cut response ≡ some p
    → Advances state p
unfolding proposal
proposal-Advances state cut none p lo hi h = cc
proposal-Advances state cut (some response) p lo hi h =
    elim (Bool-cases (str_eq response.content "")) [
      | inl is_empty ↦ let h' : none ≡ some p = rw is_empty at h in cc
      | inr has ↦
          subst (Advances state) (eq_of_some-eq (rw has at h))
            (record { forward = lo; inside = hi; folded = omega arith; has_summary = has })
    ]

propose_at-Advances :
    (model : FinalOf) (state : RunState) (cut : Option ℕ) (p : Compacted)
    → ((c : ℕ) → cut ≡ some c → (already_folded state < c) × (c ≤ length state.messages))
    → propose_at model state cut ≡ some p
    → Advances state p
unfolding propose_at
propose_at-Advances model state none p bounds h = cc
propose_at-Advances model state (some c) p bounds h =
    proposal-Advances state c (model (summary_request state c)) p (bounds c refl).0
      (bounds c refl).1 h

cutoff_bounds :
    (counter : TokenCounter) (keep : ℕ) (state : RunState) (c : ℕ)
    → cutoff counter keep state ≡ some c
    → (already_folded state < c) × (c ≤ length state.messages)
cutoff_bounds counter keep state c h =
    let k = cutoff-IsCut counter keep state c h in (k.advances, omega (arith, k.leaves_tail))

force_cut_bounds :
    (counter : TokenCounter) (keep : ℕ) (state : RunState) (c : ℕ)
    → already_folded state < length state.messages
    → force_cut counter keep state ≡ some c
    → (already_folded state < c) × (c ≤ length state.messages)
unfolding force_cut
force_cut_bounds counter zero state c lt h =
    let e : length state.messages ≡ c = eq_of_some-eq h in (omega arith, omega arith)
force_cut_bounds counter (suc keep) state c lt h = cutoff_bounds counter (suc keep) state c h

-- The automatic compaction proposes only for a request above the trigger, and what it proposes
-- moves the summary strictly forward inside the transcript and reports the distance.
pub on_before_model-Advances :
    (counter : TokenCounter) (trigger keep : ℕ) (model : FinalOf)
    → (request : ModelRequest) (state : RunState) (p : Compacted)
    → on_before_model counter trigger keep model request state ≡ some p
    → (trigger < count_request_tokens counter request) × Advances state p
unfolding on_before_model
on_before_model-Advances counter trigger keep model request state p h =
    elim (Bool-cases (leb (count_request_tokens counter request) trigger)) [
      | inl small ↦ let h' : none ≡ some p = rw small at h in cc
      | inr large ↦ (
        leb→lt _ _ large,
        propose_at-Advances model state (cutoff counter (max 1 keep) state) p
            (cutoff_bounds counter (max 1 keep) state) (rw large at h),
      )
    ]

-- What the manual compaction proposes, folding everything or keeping a recent window, moves the
-- summary strictly forward inside the transcript and reports the distance.
pub force_compact-Advances :
    (model : FinalOf) (counter : TokenCounter) (state : RunState) (keep : ℕ) (p : Compacted)
    → force_compact model counter state keep ≡ some p
    → Advances state p
unfolding force_compact
force_compact-Advances model counter state keep p h =
    elim (Bool-cases (ltb (already_folded state) (length state.messages))) [
      | inl more ↦
          propose_at-Advances model state (force_cut counter keep state) p
            (λ c e. force_cut_bounds counter keep state c (ltb→lt _ _ more) e) (rw more at h)
      | inr done ↦ let h' : none ≡ some p = rw done at h in cc
    ]
