-- ===== src/Budget/Trim.antt =====
-- The guarantees of `TokenBudget.trim`.
use milky_frog_lite.Domain.Message.{Message}
use milky_frog_lite.Prelude.{
  [], ℕ, ◌≡◌, List, some, false, true, drop, ◌∙◌, Bool-cases, length, ◌++◌, inl, drop_all, refl,
  inr, ap, if◌then◌else◌, sym, take, take-append-drop, take-drop_step, subst, ◌⊎◌,
}
use milky_frog_lite.Domain.Run.{ModelRequest}
use milky_frog_lite.Tokens.{TokenCounter, count_request_tokens, count_request_tokens_lem}
use milky_frog_lite.Budget.{
  BudgetConfig, within, trim, boundary, ℕ, TokenBudget, some, List, Message, suffix_fits,
  drop_leading_tools, drop, other_messages, trim_request_at, system_messages, trim_with,
  trim_configured, trim_nonempty, length, ◌∷◌, trim_request,
}
use milky_frog_lite.Budget.Laws.{
  IsTrimOf, grow_suffix-fits, drop_leading_tools-split, within-candidate, drop_leading_tools-fits,
  drop_leading_tools-starts, grow_suffix_maximal,
}

module _ (counter : TokenCounter) (cfg : BudgetConfig) where
  boundary-fits :
      (request : ModelRequest)
      → suffix_fits counter cfg request [] ≡ true
      → suffix_fits counter cfg request
          (drop (boundary counter cfg request) (other_messages request.messages))
        ≡ true
  unfolding boundary
  boundary-fits request base =
      let rest : List Message = other_messages request.messages in
      grow_suffix-fits counter cfg request rest (length rest) (length rest)
        (rw (drop_all rest) base)

  -- The three stretches that the loop's boundary cuts.
  trim_at_boundary :
      (request trimmed : ModelRequest) (start : ℕ)
      → start ≡ boundary counter cfg request
      → (kept : List Message)
      → kept ≡ drop_leading_tools (drop start (other_messages request.messages))
      → trimmed ≡ record request { messages = system_messages request.messages ++ kept }
      → suffix_fits counter cfg request [] ≡ true
      → IsTrimOf counter cfg request trimmed
  unfolding boundary
  trim_at_boundary request trimmed start e kept k t base =
      let rest : List Message = other_messages request.messages in
      let (orphans, all, split) = drop_leading_tools-split (drop start rest) in
      let split' : drop start rest ≡ orphans ++ kept = split ∙ ap (λ l. orphans ++ l) (sym k) in
      record {
        older = take start rest;
        orphans = orphans;
        kept = kept;
        split = sym (take-append-drop start rest) ∙ ap (λ l. take start rest ++ l) split';
        messages_eq = ap (λ (r : ModelRequest). r.messages) t;
        same_tools = ap (λ (r : ModelRequest). r.tools) t;
        same_run = ap (λ (r : ModelRequest). r.run_id) t;
        orphans_are_tools = all;
        no_leading_tool = rw k (drop_leading_tools-starts (drop start rest));
        fits = rw (← split') (
            rw e (
              grow_suffix-fits counter cfg request rest (length rest) (length rest)
                (rw (drop_all rest) base)));
        maximal = elim (grow_suffix_maximal counter cfg request rest (length rest)) [
          | inl z ↦ inl (rw (e ∙ z))
          | inr (i, s, lt, over) ↦
              let (m, d, t') = take-drop_step i rest lt in
              inr (
                take i rest,
                m,
                rw (e ∙ s) t',
                rw (← split') (
                    subst (λ l. suffix_fits counter cfg request l ≡ false)
                      (d ∙ ap (λ n. m ∷ drop n rest) (sym (e ∙ s))) over),
              )
        ];
      }

  within-no_messages :
      (request : ModelRequest)
      → request.messages ≡ []
      → within counter cfg (count_request_tokens counter request)
        ≡ suffix_fits counter cfg request []
  unfolding suffix_fits within
  within-no_messages request e = simp (count_request_tokens_lem, e)

  trimmed_messages : (request : ModelRequest) → ModelRequest
  trimmed_messages request = record request {
    messages =
        system_messages request.messages
        ++ drop_leading_tools
            (drop (boundary counter cfg request) (other_messages request.messages));
  }

  trim_request_at-eq :
      (request : ModelRequest) (ms : List Message)
      → request.messages ≡ ms
      → within counter cfg (count_request_tokens counter request) ≡ false
      → suffix_fits counter cfg request [] ≡ true
      → trim_request_at counter cfg ms request ≡ trimmed_messages request
  unfolding trim_request_at trim_nonempty trimmed_messages
  trim_request_at-eq request [] e over base = cc (within-no_messages request e)
  trim_request_at-eq request (m ∷ ms) e over base = rw base

  trim_request_at_unfit :
      (request : ModelRequest) (ms : List Message)
      → suffix_fits counter cfg request [] ≡ false
      → trim_request_at counter cfg ms request ≡ request
  unfolding trim_request_at trim_nonempty
  trim_request_at_unfit request [] over = refl
  trim_request_at_unfit request (m ∷ ms) over = rw over

  trim-eq :
      (budget : TokenBudget) (request : ModelRequest)
      → budget.counter ≡ some counter
      → budget.config ≡ some cfg
      → trim budget request ≡ (
          if within counter cfg (count_request_tokens counter request)
          then request
          else trim_request_at counter cfg request.messages request)
  unfolding trim trim_with trim_configured trim_request
  trim-eq budget request hc hf = rw (hc, hf)

  -- A request that is over the budget, while its system messages and schemas alone are within it,
  -- is trimmed: SYSTEM messages and schemas all stay, the other messages lose a prefix and nothing
  -- else, no Tool result leads what is kept, what is kept fits together with the Tool results cut
  -- off its front, and one message more would not fit.
  pub trim-IsTrimOf :
      (budget : TokenBudget) (request : ModelRequest)
      → budget.counter ≡ some counter
      → budget.config ≡ some cfg
      → within counter cfg (count_request_tokens counter request) ≡ false
      → suffix_fits counter cfg request [] ≡ true
      → IsTrimOf counter cfg request (trim budget request)
  unfolding trimmed_messages
  trim-IsTrimOf budget request hc hf over base =
      trim_at_boundary request (trim budget request) (boundary counter cfg request) refl _ refl
        (trim-eq budget request hc hf
          ∙ rw over (trim_request_at-eq request request.messages refl over base))
        base

  -- When the system messages and schemas are within the budget, so is the request that is sent;
  -- when they are not, the request is sent as it came.
  pub trim-within :
      (budget : TokenBudget) (request : ModelRequest)
      → budget.counter ≡ some counter
      → budget.config ≡ some cfg
      → ((suffix_fits counter cfg request [] ≡ true)
          × (within counter cfg (count_request_tokens counter (trim budget request)) ≡ true))
        ⊎ ((suffix_fits counter cfg request [] ≡ false) × (trim budget request ≡ request))
  unfolding trimmed_messages
  trim-within budget request hc hf =
      elim (Bool-cases (within counter cfg (count_request_tokens counter request))) [
        | inl fits ↦ elim (Bool-cases (suffix_fits counter cfg request [])) [
          | inl base ↦ inl (base, rw (trim-eq budget request hc hf, fits) fits)
          | inr unfit ↦ inr (unfit, rw (trim-eq budget request hc hf, fits))
        ]
        | inr over ↦ elim (Bool-cases (suffix_fits counter cfg request [])) [
          | inl base ↦ inl (
            base,
            rw
                (
                  trim-eq budget request hc hf,
                  over,
                  trim_request_at-eq request request.messages refl over base,
                )
                (within-candidate counter cfg request _
                  ∙ drop_leading_tools-fits counter cfg request _ (boundary-fits request base)),
          )
          | inr unfit ↦ inr (
            unfit,
            rw (trim-eq budget request hc hf, over)
                (trim_request_at_unfit request request.messages unfit),
          )
        ]
      ]
