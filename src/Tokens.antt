-- ===== src/Tokens.antt =====
-- tokens/base.py and tokens/request.py: the estimate of the tokens that a request sends. What
-- counts one text, and `json.dumps`, are parameters: the tokenizers are third-party code, and the
-- approximate counter weighs characters in floating point.
mod Examples
use milky_frog_lite.Prelude.{
  ℕ, ◌+◌, String, List, [], ◌∷◌, map, fstring, ◌≡◌, refl, ◌∙◌, ap, arith, ◌++◌, ◌≤◌, suc,
}
use milky_frog_lite.Domain.Json.{JsonObject}
use milky_frog_lite.Domain.Message.{Message, MessageRole, system, user, assistant, tool, ToolCall}
use milky_frog_lite.Domain.Run.{ModelRequest}

pub record TokenCounter : Type 0 where
  pub count_text : String → ℕ
  -- `json.dumps` of the names and arguments of Tool calls, and of a Tool schema
  pub dump_calls : List (String × JsonObject) → String
  pub dump_schema : JsonObject → String

abbrev pub per_message_overhead : ℕ
per_message_overhead = 3

abbrev pub request_overhead : ℕ
request_overhead = 3

-- `role.value`
abbrev pub role_value : MessageRole → String
role_value system = "system"
role_value user = "user"
role_value assistant = "assistant"
role_value tool = "tool"

module _ (counter : TokenCounter) where
  abbrev call_arguments : ToolCall → String × JsonObject
  call_arguments call = (call.name, call.arguments)

  unfoldable pub with_calls : List ToolCall → String → String
  with_calls [] content = content
  with_calls (c ∷ cs) content =
      fstring (content ∷ counter.dump_calls (map call_arguments (c ∷ cs)) ∷ [])

  -- The two values of the dictionary, its role and its content.
  unfoldable pub message_count_dict : Message → List String
  unfolding with_calls
  message_count_dict m = role_value m.role ∷ with_calls m.tool_calls m.content ∷ []

  count_values : ℕ → List String → ℕ
  count_values total [] = total
  count_values total (v ∷ vs) = count_values (total + counter.count_text v) vs

  -- The loop of `count_messages`, from a running total.
  count_messages_from : ℕ → List (List String) → ℕ
  unfolding count_values
  count_messages_from total [] = total
  count_messages_from total (m ∷ ms) =
      count_messages_from (count_values (total + per_message_overhead) m) ms

  unfoldable pub count_messages : List (List String) → ℕ
  unfolding count_messages_from
  count_messages = count_messages_from request_overhead

  unfoldable pub count_tool_schemas : List JsonObject → ℕ
  count_tool_schemas [] = 0
  count_tool_schemas (s ∷ ss) = counter.count_text (counter.dump_schema s) + count_tool_schemas ss

  unfoldable pub count_request_tokens : ModelRequest → ℕ
  unfolding count_messages count_tool_schemas
  count_request_tokens request =
      count_messages (map message_count_dict request.messages) + count_tool_schemas request.tools

  -- What one message adds to a request.
  pub message_tokens : Message → ℕ
  message_tokens m = count_values per_message_overhead (message_count_dict m)

  pub messages_tokens : List Message → ℕ
  messages_tokens [] = 0
  messages_tokens (m ∷ ms) = message_tokens m + messages_tokens ms

  count_values_shift :
      (k total : ℕ) (vs : List String) → count_values (k + total) vs ≡ k + count_values total vs
  unfolding count_values
  count_values_shift k total [] = refl
  count_values_shift k total (v ∷ vs) =
      ap (λ n. count_values n vs) (omega arith)
      ∙ count_values_shift k (total + counter.count_text v) vs

  count_messages_from_lem :
      (total : ℕ) (ms : List Message)
      → count_messages_from total (map message_count_dict ms) ≡ total + messages_tokens ms
  unfolding count_messages_from messages_tokens message_tokens
  count_messages_from_lem total [] = omega arith
  count_messages_from_lem total (m ∷ ms) = omega (
    arith,
    count_values_shift total per_message_overhead (message_count_dict m),
    count_messages_from_lem (count_values (total + per_message_overhead) (message_count_dict m)) ms,
  )

  -- The estimate is affine: the reply's overhead, a sum over the messages, and the Tool schemas.
  pub count_request_tokens_lem :
      (request : ModelRequest)
      → count_request_tokens request
        ≡ request_overhead + messages_tokens request.messages + count_tool_schemas request.tools
  unfolding count_request_tokens
  count_request_tokens_lem request =
      omega (arith, count_messages_from_lem request_overhead request.messages)

  pub messages_tokens-append :
      (xs ys : List Message) → messages_tokens (xs ++ ys) ≡ messages_tokens xs + messages_tokens ys
  unfolding messages_tokens
  messages_tokens-append [] ys = omega arith
  messages_tokens-append (x ∷ xs) ys = omega (arith, messages_tokens-append xs ys)
