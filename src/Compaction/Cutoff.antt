-- ===== src/Compaction/Cutoff.antt =====
-- Where `_cutoff` of harness/compaction.py cuts a transcript.
use milky_frog_lite.Domain.Run.{RunState}
use milky_frog_lite.Prelude.{
  ℕ, zero, suc, ◌+◌, List, get_elem?, true, ◌≡◌, ◌≤◌, arith, length, ◌<◌, false, Bool-cases, inl,
  inr, [], ◌==◌, drop, refl, none, ==_eq, some, ◌⊎◌, ==_ne, ◌-◌, ap, ◌∙◌, ltb, ltb→lt, ltb→ge, sym,
}
use milky_frog_lite.Domain.Message.{Message}
use milky_frog_lite.Tokens.{TokenCounter}
use milky_frog_lite.Compaction.{
  is_tool_at, skip_tools, length, ◌∷◌, false, content_tokens, drop, tokens_at, scan_back, snap,
  some, none, ltb, RunState, cutoff, already_folded, snap_found,
}

IsToolAt : List Message → ℕ → Type 0
IsToolAt messages j = is_tool_at (get_elem? messages j) ≡ true

abbrev pub IsToolBetween : List Message → ℕ → ℕ → Type 0
IsToolBetween messages i cut = (j : ℕ) → i ≤ j → j < cut → is_tool_at (get_elem? messages j) ≡ true

tool_in_range :
    (messages : List Message) (i : ℕ)
    → is_tool_at (get_elem? messages i) ≡ true
    → i < length messages
tool_in_range [] i h = cc
tool_in_range (m ∷ ms) zero h = omega arith
tool_in_range (m ∷ ms) (suc i) h = omega (arith, tool_in_range ms i h)

skip_tools-ge : (fuel : ℕ) (messages : List Message) (cut : ℕ) → cut ≤ skip_tools fuel messages cut
unfolding skip_tools
skip_tools-ge zero messages cut = omega arith
skip_tools-ge (suc fuel) messages cut = elim (Bool-cases (is_tool_at (get_elem? messages cut))) [
  | inl t ↦ rw t (omega (arith, skip_tools-ge fuel messages (cut + 1)))
  | inr f ↦ rw f (omega arith)
]

-- With a round for each message that is left, the loop ends at no Tool result.
skip_tools-stops :
    (fuel : ℕ) (messages : List Message) (cut : ℕ)
    → length messages ≤ fuel + cut
    → is_tool_at (get_elem? messages (skip_tools fuel messages cut)) ≡ false
unfolding skip_tools
skip_tools-stops zero messages cut h = elim (Bool-cases (is_tool_at (get_elem? messages cut))) [
  | inl t ↦ absurd (omega (arith, tool_in_range messages cut t))
  | inr f ↦ f
]
skip_tools-stops (suc fuel) messages cut h =
    elim (Bool-cases (is_tool_at (get_elem? messages cut))) [
      | inl t ↦ rw t (skip_tools-stops fuel messages (cut + 1) (omega arith))
      | inr f ↦ rw f f
    ]

skip_tools-between :
    (fuel : ℕ) (messages : List Message) (cut : ℕ)
    → IsToolBetween messages cut (skip_tools fuel messages cut)
unfolding skip_tools
skip_tools-between zero messages cut j lo hi = absurd (omega arith)
skip_tools-between (suc fuel) messages cut j lo hi =
    elim (Bool-cases (is_tool_at (get_elem? messages cut))) [
      | inl t ↦
          let hi' : j < skip_tools fuel messages (cut + 1) = rw t at hi in
          elim (Bool-cases (j == cut)) [
            | inl same ↦ rw (==_eq j cut same) t
            | inr other ↦
                skip_tools-between fuel messages (cut + 1) j (omega (arith, ==_ne j cut other, lo))
                  hi'
          ]
      | inr f ↦ let hi' : j < cut = rw f at hi in absurd (omega arith)
    ]

module _ (counter : TokenCounter) where
  -- The content tokens of a stretch of the transcript.
  pub tail_tokens : List Message → ℕ
  tail_tokens [] = 0
  tail_tokens (m ∷ ms) = content_tokens counter m + tail_tokens ms

  tail_tokens-drop :
      (messages : List Message) (i : ℕ)
      → tail_tokens (drop i messages)
        ≡ tokens_at counter (get_elem? messages i) + tail_tokens (drop (suc i) messages)
  unfolding tail_tokens tokens_at
  tail_tokens-drop [] zero = omega arith
  tail_tokens-drop [] (suc i) = omega arith
  tail_tokens-drop (m ∷ ms) zero = refl
  tail_tokens-drop (m ∷ ms) (suc i) = tail_tokens-drop ms i

  -- Where the walk from the end passes the keep budget: the tail from `i` is over it, and without
  -- its first message it is not.
  pub record IsPivot (keep : ℕ) (messages : List Message) (already i : ℕ) : Type 0 where
    pub from_already : already ≤ i
    pub over : keep < tail_tokens (drop i messages)
    pub fits : tail_tokens (drop (suc i) messages) ≤ keep

  pub scan_back-IsPivot :
      (keep : ℕ) (messages : List Message) (already rounds kept : ℕ)
      → kept ≡ tail_tokens (drop (already + rounds) messages)
      → kept ≤ keep
      → ((scan_back counter keep messages already rounds kept ≡ none)
          × (tail_tokens (drop already messages) ≤ keep))
        ⊎ ((i : ℕ) × (scan_back counter keep messages already rounds kept ≡ some i)
            × IsPivot keep messages already i)
  unfolding scan_back
  scan_back-IsPivot keep messages already zero kept e le =
      let z : already + 0 ≡ already = omega arith in
      inl (refl, omega (arith, e, le, ap (λ n. tail_tokens (drop n messages)) z))
  scan_back-IsPivot keep messages already (suc rounds) kept e le =
      let here : ℕ = already + rounds in
      let kept' : ℕ = kept + tokens_at counter (get_elem? messages here) in
      let s : already + suc rounds ≡ suc here = omega arith in
      let e₁ : kept ≡ tail_tokens (drop (suc here) messages) =
        e ∙ ap (λ n. tail_tokens (drop n messages)) s in
      let e' : kept' ≡ tail_tokens (drop here messages) =
        omega (arith, e₁, tail_tokens-drop messages here) in
      elim (Bool-cases (ltb keep kept')) [
        | inl past ↦ inr (
          here,
          rw past,
          record {
            from_already = omega arith;
            over = omega (arith, ltb→lt keep kept' past, e');
            fits = omega (arith, e₁, le);
          },
        )
        | inr not_yet ↦ rw not_yet (
            scan_back-IsPivot keep messages already rounds kept' e'
              (omega (arith, ltb→ge keep kept' not_yet)))
      ]

  -- What a cut is: strictly behind what was folded before and before the end, at no Tool result,
  -- and at the pivot but for the Tool results that follow it.
  pub record IsCut (keep : ℕ) (messages : List Message) (already cut : ℕ) : Type 0 where
    pub advances : already < cut
    pub leaves_tail : cut < length messages
    pub no_leading_tool : is_tool_at (get_elem? messages cut) ≡ false
    pub pivot : ℕ
    pub at_pivot : IsPivot keep messages already pivot
    pub behind_pivot : pivot ≤ cut
    pub skipped : IsToolBetween messages pivot cut

  snap-IsCut :
      (keep : ℕ) (messages : List Message) (already i cut : ℕ)
      → IsPivot keep messages already i
      → snap messages already i ≡ some cut
      → IsCut keep messages already cut
  unfolding snap
  snap-IsCut keep messages already i cut p h =
      let c : ℕ = skip_tools (length messages - i) messages i in
      let (lo, hi, e) : (already < c) × (c < length messages) × (c ≡ cut) =
        (ground (arith, h), ground (arith, h), ground (arith, h)) in
      rw (← e) (record {
        advances = lo;
        leaves_tail = hi;
        no_leading_tool = skip_tools-stops (length messages - i) messages i (omega arith);
        pivot = i;
        at_pivot = p;
        behind_pivot = skip_tools-ge (length messages - i) messages i;
        skipped = skip_tools-between (length messages - i) messages i;
      })

  tail_tokens-drop_end :
      (messages : List Message) (n : ℕ) → length messages ≤ n → tail_tokens (drop n messages) ≡ 0
  unfolding tail_tokens
  tail_tokens-drop_end [] zero h = refl
  tail_tokens-drop_end [] (suc n) h = refl
  tail_tokens-drop_end (m ∷ ms) zero h = absurd (omega arith)
  tail_tokens-drop_end (m ∷ ms) (suc n) h = tail_tokens-drop_end ms n (omega arith)

  scanned :
      (keep : ℕ) (state : RunState)
      → ((scan_back counter keep state.messages
              (already_folded state)
              (length state.messages - already_folded state)
              0
            ≡ none)
          × (tail_tokens (drop (already_folded state) state.messages) ≤ keep))
        ⊎ ((i : ℕ) × (scan_back counter keep state.messages
                (already_folded state)
                (length state.messages - already_folded state)
                0
              ≡ some i)
            × IsPivot keep state.messages (already_folded state) i)
  scanned keep state =
      scan_back-IsPivot keep state.messages (already_folded state)
        (length state.messages - already_folded state) 0
        (sym (tail_tokens-drop_end state.messages _ (omega arith))) (omega arith)

  -- Wherever `_cutoff` cuts, the cut lies strictly behind what was folded before and before the
  -- end, the tail that is kept starts with no Tool result, and the cut stands where the tail first
  -- passes the keep budget, moved forward over Tool results only.
  pub cutoff-IsCut :
      (keep : ℕ) (state : RunState) (cut : ℕ)
      → cutoff counter keep state ≡ some cut
      → IsCut keep state.messages (already_folded state) cut
  unfolding cutoff
  cutoff-IsCut keep state cut h = elim (scanned keep state) [
    | inl (e, le) ↦ let h' : none ≡ some cut = rw (e, snap_found) at h in cc
    | inr (i, e, p) ↦
        snap-IsCut keep state.messages (already_folded state) i cut p (rw (e, snap_found) at h)
  ]

  snap-none :
      (messages : List Message) (already i : ℕ)
      → already ≤ i
      → snap messages already i ≡ none
      → (i ≡ already) ⊎ IsToolBetween messages i (length messages)
  unfolding snap
  snap-none messages already i le h =
      let c : ℕ = skip_tools (length messages - i) messages i in
      let ge : i ≤ c = skip_tools-ge (length messages - i) messages i in
      let split : (c ≤ already) ⊎ (length messages ≤ c) = ground (arith, h) in
      elim split [
        | inl back ↦ inl (omega arith)
        | inr end ↦
            inr (λ j lo hi. skip_tools-between (length messages - i) messages i j lo (omega arith))
      ]

  -- `_cutoff` declines only where the messages not yet folded fit in the keep budget, where the
  -- first of them passes it, or where nothing but Tool results follow the place that passes it.
  cutoff-none :
      (keep : ℕ) (state : RunState)
      → cutoff counter keep state ≡ none
      → (tail_tokens (drop (already_folded state) state.messages) ≤ keep)
        ⊎ ((i : ℕ) × IsPivot keep state.messages (already_folded state) i
            × ((i ≡ already_folded state) ⊎ IsToolBetween state.messages i (length state.messages)))
  unfolding cutoff
  cutoff-none keep state h = elim (scanned keep state) [
    | inl (e, le) ↦ inl le
    | inr (i, e, p) ↦ inr (
      i,
      p,
      snap-none state.messages (already_folded state) i p.from_already (rw (e, snap_found) at h),
    )
  ]
