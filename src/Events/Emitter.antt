-- ===== src/Events/Emitter.antt =====
-- events/emitter.py: the messages shown to the user, and the terminal outcomes of a Run.
use milky_frog_lite.Prelude.{
  ℕ, Bool, true, false, not, String, List, [], ◌∷◌, ◌++◌, Option, none, some, leb, ltb, str_eq,
  if◌then◌else◌, fstring, join, length,
}
use milky_frog_lite.Domain.Json.{
  JsonValue, JsonObject, null, bool, num, str, arr, obj, nil, item, empty, entry, get,
}
use milky_frog_lite.Domain.Message.{ToolCall}
use milky_frog_lite.Domain.Run.{
  RunState, RunResult, RunStatus, completed, failed, cancelled, paused_limit, waiting_for_approval,
}
use milky_frog_lite.Events.{
  Raised, tool_run_cancelled, task_cancelled, error, Effect, ◌>>=◌, give, Event, run_completed,
  run_failed, run_cancelled, run_paused, raised,
}
use milky_frog_lite.Events.Hub.{EventHub, broadcast}

-- What Python's own text functions do: `str` of a JSON value and of a number, whether the literal
-- of a number is zero, the first characters of a text, and `rstrip`.
pub record PythonText : Type 0 where
  pub str_of : JsonValue → String
  pub str_of_int : ℕ → String
  pub is_zero : String → Bool
  pub char_count : String → ℕ
  pub first_chars : ℕ → String → String
  pub rstrip : String → String

module _ (text : PythonText) where
  -- The truth of a JSON value under `if`.
  abbrev pub is_truthy : JsonValue → Bool
  is_truthy null = false
  is_truthy (bool b) = b
  is_truthy (num literal) = not (text.is_zero literal)
  is_truthy (str s) = not (str_eq s "")
  is_truthy (arr nil) = false
  is_truthy (arr (item _ _)) = true
  is_truthy (obj empty) = false
  is_truthy (obj (entry _ _ _)) = true

  -- `arguments.get(key, "")`
  abbrev pub argument : JsonObject → String → JsonValue
  argument arguments key = elim (get arguments key) [ none ↦ str "" | some v ↦ v ]

  -- the branch of one builtin Tool: a text about its argument, or a shorter one
  about : JsonValue → List String → String → List String → String
  about v before after bare =
      if is_truthy v then fstring (before ++ text.str_of v ∷ after ∷ []) else fstring bare

  abbrev pub preview_value_limit : ℕ
  preview_value_limit = 160

  preview_value : String → String
  preview_value value =
      if ltb preview_value_limit (text.char_count value)
      then fstring (text.rstrip (text.first_chars preview_value_limit value) ∷ "…" ∷ [])
      else value

  -- one key of the loop of `_tool_arg_preview`: a text that is not empty gives a part
  preview_part : String → Option JsonValue → List String
  unfolding preview_value
  preview_part key (some (str value)) =
      if str_eq value "" then [] else fstring (key ∷ ": '" ∷ preview_value value ∷ "'" ∷ []) ∷ []
  preview_part key _ = []

  -- the loop: it stops as soon as there are two parts
  unfoldable pub preview_parts : JsonObject → List String → List String → List String
  unfolding preview_part
  preview_parts arguments [] parts = parts
  preview_parts arguments (key ∷ keys) parts =
      let grown = parts ++ preview_part key (get arguments key) in
      let rest = preview_parts arguments keys grown in if leb 2 (length grown) then grown else rest

  abbrev pub preview_keys : List String
  preview_keys = "path" ∷ "pattern" ∷ "target" ∷ "url" ∷ "command" ∷ "prompt" ∷ []

  bracketed : List String → String
  bracketed [] = ""
  bracketed (p ∷ ps) = fstring ("(" ∷ join ", " (p ∷ ps) ∷ ")" ∷ [])

  unfoldable pub tool_arg_preview : JsonObject → String
  unfolding bracketed preview_parts
  tool_arg_preview arguments = bracketed (preview_parts arguments preview_keys [])

  other_message : String → String → String
  other_message name preview =
      if str_eq preview ""
      then fstring (
          "approval needed for: " ∷ name ∷ "\n\nAgent requested tool '" ∷ name
          ∷ "'. Allow this call?" ∷ [])
      else fstring (
          "approval needed for: " ∷ name ∷ "\n\nAgent requested tool '" ∷ name ∷ "' " ∷ preview
          ∷ ". Allow this call?" ∷ [])

  unfoldable pub format_approval_message : ToolCall → String
  unfolding about other_message
  format_approval_message call =
      let command = argument call.arguments "command" in
      let path = argument call.arguments "path" in
      if str_eq call.name "bash"
      then about command ("approval needed for: bash" ∷ "\n\nAgent requested bash command '" ∷ [])
          "'. Allow this command?" ("approval needed for: bash\n\nAllow this bash command?" ∷ [])
      else if str_eq call.name "read"
      then about path ("approval needed for: read\n\nAgent requested to read '" ∷ [])
          "'. Allow this read?" ("approval needed for: read\n\nAllow this file read?" ∷ [])
      else if str_eq call.name "write"
      then about path ("approval needed for: write" ∷ "\n\nAgent requested to write to '" ∷ [])
          "'. Allow this write?" ("approval needed for: write\n\nAllow this file write?" ∷ [])
      else if str_eq call.name "edit"
      then about path ("approval needed for: edit\n\nAgent requested to edit '" ∷ [])
          "'. Allow this edit?" ("approval needed for: edit\n\nAllow this edit?" ∷ [])
      else if str_eq call.name "merge_worktree"
      then fstring (
          "approval needed for: merge_worktree"
          ∷ "\n\nA subagent left changes on branch '"
          ∷ text.str_of (argument call.arguments "branch")
          ∷ "' at '"
          ∷ text.str_of (argument call.arguments "worktree")
          ∷ "'."
          ∷ " Merge them into your workspace and remove the worktree?"
          ∷ [])
      else other_message call.name (tool_arg_preview call.arguments)

-- `_format_failure_message`: the third part of an error is the host and path of its request.
unfoldable pub format_failure_message : Raised → String
format_failure_message tool_run_cancelled = "ToolRunCancelled: "
format_failure_message task_cancelled = "CancelledError: "
format_failure_message (error name message none) = fstring (name ∷ ": " ∷ message ∷ [])
format_failure_message (error name message (some upstream)) =
    if str_eq message ""
    then fstring (name ∷ ": upstream " ∷ upstream ∷ [])
    else fstring (name ∷ ": " ∷ message ∷ [])

-- `RunResult(state.run_id, status, message, state.completed_model_calls, state.usage)`
abbrev pub result_of : RunState → RunStatus → String → RunResult
result_of state status message = record {
  run_id = state.run_id;
  status = status;
  final_message = message;
  model_calls = state.completed_model_calls;
  usage = state.usage;
}

module _ {X : Type 0} (hub : EventHub X) where
  unfoldable pub finish : Event → RunResult → Effect X RunResult
  finish event result = do _ ← broadcast hub event; give result

  unfoldable pub finish_failed : RunState → Raised → Effect X RunResult
  unfolding finish
  finish_failed state e =
      let result = result_of state failed (format_failure_message e) in
      finish (run_failed state.run_id result state) result

  unfoldable pub finish_completed : RunState → String → Effect X RunResult
  unfolding finish
  finish_completed state final_message =
      let result = result_of state completed final_message in
      finish (run_completed state.run_id result state) result

  unfoldable pub finish_paused : PythonText → RunState → ℕ → Effect X RunResult
  unfolding finish
  finish_paused text state max_model_calls =
      let message =
        fstring ("model call limit reached (" ∷ text.str_of_int max_model_calls ∷ ")" ∷ []) in
      let result = result_of state paused_limit message in
      finish (run_paused state.run_id result state) result

  unfoldable pub finish_cancelled : RunState → String → Effect X RunResult
  unfolding finish
  finish_cancelled state reason =
      let result = result_of state cancelled reason in
      finish (run_cancelled state.run_id result state) result

  -- `calls[0]` of no call raises; the loop gives at least one.
  unfoldable pub finish_approval_needed : PythonText → RunState → List ToolCall → Effect X RunResult
  unfolding finish
  finish_approval_needed text state [] w =
      (raised (error "IndexError" "tuple index out of range" none), w)
  finish_approval_needed text state (call ∷ _) w =
      let result = result_of state waiting_for_approval (format_approval_message text call) in
      finish (run_paused state.run_id result state) result w
