-- ===== src/Models/Payload.antt =====
-- models/openai.py, `_message_payload`: a message as the dictionary that is sent, and what can be
-- read back of it.
use milky_frog_lite.Tokens.{role_value}
use milky_frog_lite.Prelude.{
  ◌∷◌, Option, String, List, some, if◌then◌else◌, ◌≡◌, [], str_eq, none, ap₂, ap, Bool-cases, refl,
  inl, subst, sym, eq_iff, inr, All,
}
use milky_frog_lite.Domain.Json.{
  JsonValue, JsonArray, JsonObject, str, obj, arr, nil, item, empty, entry, get,
}
use milky_frog_lite.Domain.Message.{Message, ToolCall}

-- `json.dumps(arguments, ensure_ascii=False)` is the parameter.
module _ (dumps : JsonObject → String) where
  unfoldable pub call_payload : ToolCall → JsonObject
  call_payload c = entry "id" (str c.id) (
      entry "type" (str "function") (
        entry "function"
          (obj (entry "name" (str c.name) (entry "arguments" (str (dumps c.arguments)) empty)))
          empty))

  unfoldable pub calls_payload : List ToolCall → JsonArray
  unfolding call_payload
  calls_payload [] = nil
  calls_payload (c ∷ cs) = item (obj (call_payload c)) (calls_payload cs)

  abbrev pub with_tool_call_id : Option String → JsonObject
  with_tool_call_id none = empty
  with_tool_call_id (some id) = entry "tool_call_id" (str id) empty

  unfoldable pub with_tool_calls : List ToolCall → JsonObject → JsonObject
  unfolding calls_payload
  with_tool_calls [] rest = rest
  with_tool_calls (c ∷ cs) rest = entry "tool_calls" (arr (calls_payload (c ∷ cs))) rest

  abbrev pub with_reasoning : String → JsonObject → JsonObject
  with_reasoning reasoning rest =
      if str_eq reasoning "" then rest else entry "reasoning_content" (str reasoning) rest

  unfoldable pub message_payload : Message → JsonObject
  unfolding with_tool_calls
  message_payload m = entry "role" (str (role_value m.role)) (
      entry "content" (str m.content) (
        with_reasoning m.reasoning
          (with_tool_calls m.tool_calls (with_tool_call_id m.tool_call_id))))

-- What a Provider reads: a text, or what stands for one that is missing.
abbrev pub text_at : String → Option JsonValue → String
text_at missing none = missing
text_at missing (some (str s)) = s
text_at missing (some _) = missing

abbrev pub id_at : Option JsonValue → Option String
id_at (some (str s)) = some s
id_at _ = none

module _ (loads : String → JsonObject) where
  abbrev pub function_at : String → Option JsonValue → ToolCall
  function_at id (some (obj f)) = record {
    id = id;
    name = text_at "" (get f "name");
    arguments = loads (text_at "" (get f "arguments"));
  }
  function_at id _ = record { id = id; name = ""; arguments = empty }

  abbrev pub call_at : JsonValue → ToolCall
  call_at (obj o) = function_at (text_at "" (get o "id")) (get o "function")
  call_at _ = record { id = ""; name = ""; arguments = empty }

  abbrev pub calls_in : JsonArray → List ToolCall
  calls_in nil = []
  calls_in (item v vs) = call_at v ∷ calls_in vs

  abbrev pub calls_at : Option JsonValue → List ToolCall
  calls_at (some (arr a)) = calls_in a
  calls_at _ = []

  -- All that the payload says: the role, and the other fields of the message.
  abbrev pub read_payload : JsonObject → String × String × String × List ToolCall × Option String
  read_payload o = (
    text_at "" (get o "role"),
    text_at "" (get o "content"),
    text_at "" (get o "reasoning_content"),
    calls_at (get o "tool_calls"),
    id_at (get o "tool_call_id"),
  )

module _ (dumps : JsonObject → String) (loads : String → JsonObject) where
  -- The arguments of every call are read back.
  abbrev pub AreReadBack : List ToolCall → Type 0
  AreReadBack cs = All (λ (c : ToolCall). loads (dumps c.arguments) ≡ c.arguments) cs

  calls_in-calls_payload :
      (cs : List ToolCall) → AreReadBack cs → calls_in loads (calls_payload dumps cs) ≡ cs
  unfolding calls_payload call_payload get
  calls_in-calls_payload [] h = refl
  calls_in-calls_payload (c ∷ cs) h =
      ap₂ (λ x xs. x ∷ xs) (ap (λ a. record { id = c.id; name = c.name; arguments = a }) h.0)
        (calls_in-calls_payload cs h.1)

  read_unreasoned :
      (role content : String) (cs : List ToolCall) (id : Option String)
      → AreReadBack cs
      → read_payload loads (
          entry "role"
            (str role)
            (entry "content" (str content) (with_tool_calls dumps cs (with_tool_call_id dumps id))))
        ≡ (role, content, "", cs, id)
  unfolding with_tool_calls get
  read_unreasoned role content [] none h = refl
  read_unreasoned role content [] (some id) h = refl
  read_unreasoned role content (c ∷ cs) none h =
      ap (λ l. (role, content, "", l, none)) (calls_in-calls_payload (c ∷ cs) h)
  read_unreasoned role content (c ∷ cs) (some id) h =
      ap (λ l. (role, content, "", l, some id)) (calls_in-calls_payload (c ∷ cs) h)

  read_reasoned :
      (role content reasoning : String) (cs : List ToolCall) (id : Option String)
      → AreReadBack cs
      → read_payload loads (
          entry "role" (str role) (
            entry "content" (str content) (
              entry "reasoning_content"
                (str reasoning)
                (with_tool_calls dumps cs (with_tool_call_id dumps id)))))
        ≡ (role, content, reasoning, cs, id)
  unfolding with_tool_calls get
  read_reasoned role content reasoning [] none h = refl
  read_reasoned role content reasoning [] (some id) h = refl
  read_reasoned role content reasoning (c ∷ cs) none h =
      ap (λ l. (role, content, reasoning, l, none)) (calls_in-calls_payload (c ∷ cs) h)
  read_reasoned role content reasoning (c ∷ cs) (some id) h =
      ap (λ l. (role, content, reasoning, l, some id)) (calls_in-calls_payload (c ∷ cs) h)

  read_parts :
      (role content reasoning : String) (cs : List ToolCall) (id : Option String)
      → AreReadBack cs
      → read_payload loads (
          entry "role" (str role) (
            entry "content" (str content) (
              with_reasoning dumps reasoning
                (with_tool_calls dumps cs (with_tool_call_id dumps id)))))
        ≡ (role, content, reasoning, cs, id)
  unfolding with_tool_calls get
  read_parts role content reasoning cs id h = elim (Bool-cases (str_eq reasoning "")) [
    | inl e ↦
        subst
          (λ r.
            read_payload loads (
              entry "role" (str role) (
                entry "content" (str content)
                  (with_reasoning dumps r (with_tool_calls dumps cs (with_tool_call_id dumps id)))))
            ≡ (role, content, r, cs, id))
          (sym ((eq_iff reasoning "").0 e)) (read_unreasoned role content cs id h)
    | inr e ↦ rw e (read_reasoned role content reasoning cs id h)
  ]

  -- What a message is sent as tells all of it: its role, its text, its reasoning, its Tool calls
  -- with their arguments, and the call it answers, if the texts of the arguments are read back as
  -- the arguments were.
  pub read_payload-message_payload :
      (m : Message)
      → AreReadBack m.tool_calls
      → read_payload loads (message_payload dumps m)
        ≡ (role_value m.role, m.content, m.reasoning, m.tool_calls, m.tool_call_id)
  unfolding message_payload
  read_payload-message_payload m h =
      read_parts (role_value m.role) m.content m.reasoning m.tool_calls m.tool_call_id h
