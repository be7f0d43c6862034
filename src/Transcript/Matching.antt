-- ===== src/Transcript/Matching.antt =====
-- How each operation of harness/state.py changes the set of Tool calls that have no result.
use milky_frog_lite.Prelude.{
  Bool, true, false, not, ◌&&◌, ◌||◌, ◌≡◌, refl, sym, ap, ◌∙◌, String, List, [], ◌∷◌, ◌++◌,
  append-nil, append_assoc, filter, filter-append, filter-filter, filter_congr, contains,
  contains-append, str_eq,
}
use milky_frog_lite.Domain.Message.{Message, ToolCall, ToolResult}
use milky_frog_lite.Domain.Run.{RunState, ModelResponse}
use milky_frog_lite.Transcript.{
  satisfied, requested, unmatched_tool_calls, append_tool_result, append_model_response,
  append_synthetic_tool_call, append_user_message,
}

pub satisfied-append : (xs ys : List Message) → satisfied (xs ++ ys) ≡ satisfied xs ++ satisfied ys
unfolding satisfied
satisfied-append [] ys = refl
satisfied-append (x ∷ xs) ys = simp (satisfied-append xs ys, append_assoc)

pub requested-append : (xs ys : List Message) → requested (xs ++ ys) ≡ requested xs ++ requested ys
unfolding requested
requested-append [] ys = refl
requested-append (x ∷ xs) ys = simp (requested-append xs ys, append_assoc)

-- Whether a call still waits, given the ids that have a result.
abbrev pub waits : List String → ToolCall → Bool
waits ids call = not (contains ids call.id)

not_or : (a b : Bool) → not (a || b) ≡ (not a && not b)
not_or true b = refl
not_or false b = refl

pub filter-waits-append :
    (xs ys : List String) (calls : List ToolCall)
    → filter (waits (xs ++ ys)) calls ≡ filter (waits ys) (filter (waits xs) calls)
filter-waits-append xs ys calls =
    filter_congr _ _ calls (λ c. ap not (contains-append xs ys c.id) ∙ not_or _ _)
    ∙ sym (filter-filter _ _ calls)

-- What a longer transcript leaves unmatched.
pub unmatched-append :
    (xs ys : List Message)
    → unmatched_tool_calls (xs ++ ys)
      ≡ filter (waits (satisfied ys)) (unmatched_tool_calls xs)
        ++ filter (waits (satisfied xs ++ satisfied ys)) (requested ys)
unfolding unmatched_tool_calls
unmatched-append xs ys =
    simp (requested-append, satisfied-append, filter-append, filter-waits-append)

pub filter_all {ℓ} : {A : Type ℓ} (xs : List A) → filter (λ x. true) xs ≡ xs
filter_all [] = refl
filter_all (x ∷ xs) = ap (λ l. x ∷ l) (filter_all xs)

pub or_false : (b : Bool) → (b || false) ≡ b
or_false true = refl
or_false false = refl

pub or_true : (b : Bool) → (b || true) ≡ true
or_true true = refl
or_true false = refl

ruleset matching = (unmatched-append, filter_all, append-nil, or_false)

module _ (state : RunState) where
  -- Appending a Tool result removes exactly the waiting calls that bear the id it answers; the
  -- others stay, in their order.
  pub unmatched-append_tool_result :
      (call : ToolCall) (result : ToolResult)
      → unmatched_tool_calls (append_tool_result state call result).messages
        ≡ filter (λ c. not (str_eq call.id c.id)) (unmatched_tool_calls state.messages)
  unfolding append_tool_result satisfied requested
  unmatched-append_tool_result call result = simp matching (
      filter_congr _ _ (unmatched_tool_calls state.messages)
        λ c. ap not (or_false (str_eq call.id c.id)))

  -- Appending the response of the model keeps every waiting call and adds the calls of the
  -- response whose id has no result yet, behind them.
  pub unmatched-append_model_response :
      (response : ModelResponse)
      → unmatched_tool_calls (append_model_response state response).messages
        ≡ unmatched_tool_calls state.messages
          ++ filter (waits (satisfied state.messages)) response.tool_calls
  unfolding append_model_response satisfied requested
  unmatched-append_model_response response = simp matching

  -- Appending a synthesized call hides no waiting call: it joins them, unless its id is answered.
  unmatched-append_synthetic_tool_call :
      (call : ToolCall)
      → unmatched_tool_calls (append_synthetic_tool_call state call).messages
        ≡ unmatched_tool_calls state.messages
          ++ filter (waits (satisfied state.messages)) (call ∷ [])
  unfolding append_synthetic_tool_call satisfied requested
  unmatched-append_synthetic_tool_call call = simp matching

  pub unmatched-append_user_message :
      (content : String)
      → unmatched_tool_calls (append_user_message state content).messages
        ≡ unmatched_tool_calls state.messages
  unfolding append_user_message satisfied requested
  unmatched-append_user_message content = simp matching
