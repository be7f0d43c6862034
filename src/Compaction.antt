-- ===== src/Compaction.antt =====
-- harness/compaction.py: the oldest messages of a transcript are summarized when the request grows
-- past a threshold. The model that writes the summary is a function argument.
pub mod Cutoff
pub mod Progress
mod Examples
use milky_frog_lite.Prelude.{
  ℕ, zero, suc, ◌+◌, ◌-◌, Bool, true, false, ◌&&◌, String, List, [], ◌∷◌, ◌++◌, Option, none, some,
  length, get_elem?, drop, take, map, ltb, leb, if◌then◌else◌, fstring, join, max, str_eq,
}
use milky_frog_lite.Domain.Message.{Message, is_tool, system, user, plain_message}
use milky_frog_lite.Domain.Run.{RunState, CompactionState, Compacted, ModelRequest, ModelResponse}
use milky_frog_lite.Tokens.{TokenCounter, with_calls, role_value, count_request_tokens}

-- How far the summaries reach already.
through : Option CompactionState → ℕ
through none = 0
through (some c) = c.through_index

unfoldable pub already_folded : RunState → ℕ
unfolding through
already_folded state = through state.compaction

abbrev pub is_tool_at : Option Message → Bool
is_tool_at none = false
is_tool_at (some m) = is_tool m.role

-- `while cut < len(messages) and messages[cut].role is TOOL: cut += 1`
unfoldable pub skip_tools : ℕ → List Message → ℕ → ℕ
skip_tools zero messages cut = cut
skip_tools (suc fuel) messages cut =
    let further = skip_tools fuel messages (cut + 1) in
    if is_tool_at (get_elem? messages cut) then further else cut

-- What follows the loop, at the index where it broke off.
unfoldable pub snap : List Message → ℕ → ℕ → Option ℕ
unfolding skip_tools
snap messages already i =
    let cut = skip_tools (length messages - i) messages i in
    if ltb already cut && ltb cut (length messages) then some cut else none

unfoldable pub snap_found : List Message → ℕ → Option ℕ → Option ℕ
unfolding snap
snap_found messages already none = none
snap_found messages already (some i) = snap messages already i

module _ (counter : TokenCounter) where
  unfoldable pub content_tokens : Message → ℕ
  content_tokens m = counter.count_text (with_calls counter m.tool_calls m.content)

  unfoldable pub tokens_at : Option Message → ℕ
  unfolding content_tokens
  tokens_at none = 0
  tokens_at (some m) = content_tokens m

  -- The loop `for i in range(len(messages) - 1, already - 1, -1)`: the index is `already` plus the
  -- rounds that are left after this one. `none` is the `else` of the loop.
  unfoldable pub scan_back : ℕ → List Message → ℕ → ℕ → ℕ → Option ℕ
  unfolding tokens_at
  scan_back keep messages already zero kept = none
  scan_back keep messages already (suc rounds) kept =
      let kept' = kept + tokens_at (get_elem? messages (already + rounds)) in
      let further = scan_back keep messages already rounds kept' in
      if ltb keep kept' then some (already + rounds) else further

  unfoldable pub cutoff : ℕ → RunState → Option ℕ
  unfolding already_folded scan_back snap_found
  cutoff keep state =
      let already = already_folded state in
      snap_found state.messages already
        (scan_back keep state.messages already (length state.messages - already) 0)

abbrev pub summary_instructions : String
summary_instructions =
    "You are compressing a coding agent's working transcript so the task can continue with less context. Write a dense summary that preserves: the user's goal, decisions made, facts discovered, file paths touched, and any open or next steps. Omit chit-chat. Output only the summary."

summary_so_far : Option CompactionState → List String
summary_so_far none = []
summary_so_far (some c) = fstring ("Summary so far:\n" ∷ c.summary ∷ []) ∷ []

abbrev pub transcript_line : Message → String
transcript_line m = fstring (role_value m.role ∷ ": " ∷ m.content ∷ [])

-- The request that `_summarize` streams: the messages newly dropped since the last compaction.
unfoldable pub summary_request : RunState → ℕ → ModelRequest
unfolding summary_so_far already_folded
summary_request state cut =
    let already = already_folded state in
    record {
      messages =
          plain_message system summary_instructions
          ∷ plain_message user (
              join "\n\n" (
                summary_so_far state.compaction
                ++ map transcript_line (drop already (take cut state.messages))))
          ∷ [];
      tools = [];
      run_id = state.run_id;
    }

-- The proposal made of the model's final response, if it has any content.
proposal : ℕ → ℕ → Option ModelResponse → Option Compacted
proposal already cut none = none
proposal already cut (some response) =
    if str_eq response.content ""
    then none
    else some (record {
      compaction = record { summary = response.content; through_index = cut };
      messages_folded = cut - already;
      usage = response.usage;
    })

-- `_stream_final` of the model
abbrev pub FinalOf : Type 0
FinalOf = ModelRequest → Option ModelResponse

propose_at : FinalOf → RunState → Option ℕ → Option Compacted
unfolding proposal summary_request already_folded
propose_at model state none = none
propose_at model state (some cut) =
    proposal (already_folded state) cut (model (summary_request state cut))

module _ (counter : TokenCounter) (trigger_tokens keep_recent_tokens : ℕ) (model : FinalOf) where
  -- `CompactionHandler._on_before_model`; the constructor raises the keep budget to at least 1.
  unfoldable pub on_before_model : ModelRequest → RunState → Option Compacted
  unfolding propose_at cutoff
  on_before_model request state =
      if leb (count_request_tokens counter request) trigger_tokens
      then none
      else propose_at model state (cutoff counter (max 1 keep_recent_tokens) state)

-- Where the manual `/compact` cuts: at the end, unless a keep budget is given.
force_cut : TokenCounter → ℕ → RunState → Option ℕ
unfolding cutoff
force_cut counter zero state = some (length state.messages)
force_cut counter (suc threshold) state = cutoff counter (suc threshold) state

unfoldable pub force_compact : FinalOf → TokenCounter → RunState → ℕ → Option Compacted
unfolding force_cut propose_at already_folded
force_compact model counter state keep_recent_tokens =
    if ltb (already_folded state) (length state.messages)
    then propose_at model state (force_cut counter keep_recent_tokens state)
    else none
