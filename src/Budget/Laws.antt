-- ===== src/Budget/Laws.antt =====
-- What trimming guarantees: `_trim_request` of harness/budget.py.
use milky_frog_lite.Prelude.{
  ℕ, zero, suc, ◌≤◌, List, [], drop, true, false, ◌≡◌, Bool, All, ◌⊎◌, Bool-cases, inl, refl, inr,
  ◌++◌, ap, le→leb, arith, ◌<◌, leb→le,
}
use milky_frog_lite.Domain.Message.{Message, is_tool}
use milky_frog_lite.Domain.Run.{ModelRequest}
use milky_frog_lite.Tokens.{
  TokenCounter, messages_tokens, count_request_tokens, count_request_tokens_lem,
  messages_tokens-append,
}
use milky_frog_lite.Budget.{
  BudgetConfig, within, suffix_fits, candidate, grow_suffix, drop_leading_tools, Bool, ◌∷◌, is_tool,
  other_messages, system_messages,
}

-- No orphan stands at the boundary.
abbrev pub starts_with_tool : List Message → Bool
starts_with_tool [] = false
starts_with_tool (m ∷ ms) = is_tool m.role

pub drop_leading_tools-starts :
    (ms : List Message) → starts_with_tool (drop_leading_tools ms) ≡ false
unfolding drop_leading_tools
drop_leading_tools-starts [] = refl
drop_leading_tools-starts (m ∷ ms) = elim (Bool-cases (is_tool m.role)) [
  | inl t ↦ rw t (drop_leading_tools-starts ms)
  | inr f ↦ rw f f
]

-- What `drop_leading_tools` removes is a prefix of Tool results.
pub drop_leading_tools-split :
    (ms : List Message)
    → (tools : List Message) × All (λ (m : Message). is_tool m.role ≡ true) tools
      × (ms ≡ tools ++ drop_leading_tools ms)
unfolding drop_leading_tools
drop_leading_tools-split [] = ([], tt, refl)
drop_leading_tools-split (m ∷ ms) = elim (Bool-cases (is_tool m.role)) [
  | inl t ↦
      let (tools, all, e) = drop_leading_tools-split ms in
      (m ∷ tools, (t, all), rw t (ap (λ l. m ∷ l) e))
  | inr f ↦ ([], tt, rw f)
]

module _ (counter : TokenCounter) (cfg : BudgetConfig) (request : ModelRequest) where
  pub grow_suffix-fits :
      (rest : List Message) (i start : ℕ)
      → suffix_fits counter cfg request (drop start rest) ≡ true
      → suffix_fits counter cfg request (drop (grow_suffix counter cfg request rest i start) rest)
        ≡ true
  unfolding grow_suffix
  grow_suffix-fits rest zero start h = h
  grow_suffix-fits rest (suc i) start h =
      elim (Bool-cases (suffix_fits counter cfg request (drop i rest))) [
        | inl fits ↦ rw fits (grow_suffix-fits rest i i fits)
        | inr over ↦ rw over h
      ]

  -- The loop stops at the first suffix that does not fit.
  pub grow_suffix_maximal :
      (rest : List Message) (i : ℕ)
      → (grow_suffix counter cfg request rest i i ≡ 0)
        ⊎ ((k : ℕ) × (grow_suffix counter cfg request rest i i ≡ suc k)
            × (k < i)
            × (suffix_fits counter cfg request (drop k rest) ≡ false))
  unfolding grow_suffix
  grow_suffix_maximal rest zero = inl refl
  grow_suffix_maximal rest (suc i) =
      elim (Bool-cases (suffix_fits counter cfg request (drop i rest))) [
        | inl fits ↦ rw fits (elim (grow_suffix_maximal rest i) [
          | inl z ↦ inl z
          | inr (k, e, lt, over) ↦ inr (k, e, omega arith, over)
        ])
        | inr over ↦ inr (i, rw over, omega arith, over)
      ]

  suffix_fits_le :
      (xs ys : List Message)
      → messages_tokens counter xs ≤ messages_tokens counter ys
      → suffix_fits counter cfg request ys ≡ true
      → suffix_fits counter cfg request xs ≡ true
  unfolding suffix_fits
  suffix_fits_le xs ys le h = le→leb _ _ (
      omega (
        arith,
        leb→le _ _ h,
        count_request_tokens_lem counter (candidate counter cfg request xs),
        count_request_tokens_lem counter (candidate counter cfg request ys),
        messages_tokens-append counter (system_messages request.messages) xs,
        messages_tokens-append counter (system_messages request.messages) ys,
      ))

  pub drop_leading_tools-fits :
      (ms : List Message)
      → suffix_fits counter cfg request ms ≡ true
      → suffix_fits counter cfg request (drop_leading_tools ms) ≡ true
  drop_leading_tools-fits ms h =
      let (tools, all, e) = drop_leading_tools-split ms in
      suffix_fits_le (drop_leading_tools ms) ms
        (omega (
          arith,
          ap (messages_tokens counter) e,
          messages_tokens-append counter tools (drop_leading_tools ms),
        ))
        h

  -- The estimate reads the messages and the schemas alone.
  pub within-candidate :
      (kept : List Message)
      → within counter cfg (
          count_request_tokens counter
            (record request { messages = system_messages request.messages ++ kept }))
        ≡ suffix_fits counter cfg request kept
  unfolding suffix_fits within
  within-candidate kept = simp (count_request_tokens_lem)

-- How a trimmed request stands to the one that was too large.
pub record IsTrimOf (counter : TokenCounter) (cfg : BudgetConfig) (request trimmed : ModelRequest)
    : Type 0 where
  pub older : List Message
  pub orphans : List Message
  pub kept : List Message
  -- the messages that are not SYSTEM are cut into three stretches, in order
  pub split : other_messages request.messages ≡ older ++ (orphans ++ kept)
  pub messages_eq : trimmed.messages ≡ system_messages request.messages ++ kept
  pub same_tools : trimmed.tools ≡ request.tools
  pub same_run : trimmed.run_id ≡ request.run_id
  pub orphans_are_tools : All (λ (m : Message). is_tool m.role ≡ true) orphans
  pub no_leading_tool : starts_with_tool kept ≡ false
  pub fits : suffix_fits counter cfg request (orphans ++ kept) ≡ true
  -- one more message would not fit
  pub maximal :
      (older ≡ [])
      ⊎ ((front : List Message) × (m : Message) × (older ≡ front ++ m ∷ [])
          × (suffix_fits counter cfg request (m ∷ (orphans ++ kept)) ≡ false))
