-- ===== src/Transcript/Seal.antt =====
-- `seal` of harness/state.py: the repair of a transcript that ends in the middle of a turn.
use milky_frog_lite.Prelude.{
  Bool, true, false, not, ◌≡◌, refl, ap, ap₂, ◌∙◌, sym, String, List, [], ◌∷◌, ◌++◌, map,
  append_assoc, append-nil, filter, str_eq, eq_refl, arith, ◌||◌,
}
use milky_frog_lite.Domain.Message.{Message, ToolCall, error_result}
use milky_frog_lite.Domain.Run.{RunState}
use milky_frog_lite.Transcript.{
  unmatched_tool_calls, append_tool_result, interrupted_tool_result, result_message, seal,
  seal_calls,
}
use milky_frog_lite.Transcript.Matching.{
  waits, filter_all, or_false, or_true, unmatched-append_tool_result,
}

abbrev ids : List ToolCall → List String
ids = map (λ (c : ToolCall). c.id)

-- The repair of one call, as a message.
abbrev pub interrupted : ToolCall → Message
interrupted call = result_message call (error_result interrupted_tool_result)

abbrev pub is_nonempty {ℓ} : {A : Type ℓ} → List A → Bool
is_nonempty [] = false
is_nonempty (x ∷ xs) = true

seal_calls-eq :
    (calls : List ToolCall) (state : RunState) (repaired : Bool)
    → seal_calls calls state repaired ≡ (
      record state { messages = state.messages ++ map interrupted calls },
      repaired || is_nonempty calls,
    )
unfolding seal_calls append_tool_result
seal_calls-eq [] state repaired =
    ap₂ (λ ms b. (record state { messages = ms }, b)) (sym (append-nil _)) (sym (or_false _))
seal_calls-eq (call ∷ calls) state repaired =
    seal_calls-eq calls (append_tool_result state call (error_result interrupted_tool_result)) true
    ∙ ap₂ (λ ms b. (record state { messages = ms }, b))
        (append_assoc state.messages (interrupted call ∷ []) (map interrupted calls))
        (sym (or_true repaired))

waits-cons :
    (x : String) (xs : List String) (calls : List ToolCall)
    → filter (waits (x ∷ xs)) calls ≡ filter (λ c. not (str_eq x c.id)) (filter (waits xs) calls)
waits-cons x xs [] = refl
waits-cons x xs (c ∷ calls) = ground (arith, waits-cons x xs calls)

waits-cons_first :
    (x : String) (xs : List String) (calls : List ToolCall)
    → filter (waits xs) (filter (λ c. not (str_eq x c.id)) calls) ≡ filter (waits (x ∷ xs)) calls
waits-cons_first x xs [] = refl
waits-cons_first x xs (c ∷ calls) = ground (arith, waits-cons_first x xs calls)

unmatched-seal_calls :
    (calls : List ToolCall) (state : RunState) (repaired : Bool)
    → unmatched_tool_calls (seal_calls calls state repaired).0.messages
      ≡ filter (waits (ids calls)) (unmatched_tool_calls state.messages)
unfolding seal_calls
unmatched-seal_calls [] state repaired = sym (filter_all _)
unmatched-seal_calls (call ∷ calls) state repaired =
    unmatched-seal_calls calls (append_tool_result state call _) true
    ∙ ap (filter (waits (ids calls))) (unmatched-append_tool_result state call _)
    ∙ waits-cons_first call.id (ids calls) (unmatched_tool_calls state.messages)

-- Every call of a list is answered by the ids of the list.
waits-ids : (calls : List ToolCall) → filter (waits (ids calls)) calls ≡ []
waits-ids [] = refl
waits-ids (c ∷ calls) = rw (eq_refl c.id) (
    waits-cons c.id (ids calls) calls
    ∙ ap (filter (λ (d : ToolCall). not (str_eq c.id d.id))) (waits-ids calls))

module _ (state : RunState) where
  -- Sealing appends one interrupted result for each waiting call, in transcript order, changes
  -- nothing else of the state, and reports a repair exactly when a call was waiting.
  pub seal_lem : seal state ≡ (
    record state {
      messages = state.messages ++ map interrupted (unmatched_tool_calls state.messages);
    },
    is_nonempty (unmatched_tool_calls state.messages),
  )
  unfolding seal
  seal_lem = seal_calls-eq (unmatched_tool_calls state.messages) state false

  -- After sealing, every Tool call of the transcript has a result.
  pub unmatched-seal : unmatched_tool_calls (seal state).0.messages ≡ []
  unfolding seal
  unmatched-seal =
      unmatched-seal_calls (unmatched_tool_calls state.messages) state false
      ∙ waits-ids (unmatched_tool_calls state.messages)

-- A sealed state is sealed already: sealing it again changes nothing and reports no repair.
seal-seal : (state : RunState) → seal (seal state).0 ≡ ((seal state).0, false)
seal-seal state =
    seal_lem (seal state).0
    ∙ ap
        (λ calls. (
          record (seal state).0 { messages = (seal state).0.messages ++ map interrupted calls },
          is_nonempty calls,
        ))
        (unmatched-seal state)
    ∙ ap (λ ms. (record (seal state).0 { messages = ms }, false)) (append-nil _)
