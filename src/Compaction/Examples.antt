-- ===== src/Compaction/Examples.antt =====
-- Tests and instances: a transcript whose first turn is folded.
use milky_frog_lite.Compaction.Progress.{Advances, force_compact-Advances, on_before_model-Advances}
use milky_frog_lite.Compaction.Cutoff.{IsCut, cutoff-IsCut}
use Prim.Native.String.{count}
use milky_frog_lite.Prelude.{[], ◌∷◌, refl, ◌≡◌, some, ◌<◌, none}
use milky_frog_lite.Domain.Json.{empty}
use milky_frog_lite.Domain.Usage.{no_usage}
use milky_frog_lite.Domain.Message.{plain_message, user, error_result, assistant, ToolCall}
use milky_frog_lite.Domain.Run.{RunState, new_state, Compacted}
use milky_frog_lite.Transcript.{result_message, synthetic_message}
use milky_frog_lite.Tokens.{TokenCounter, count_request_tokens, with_calls, message_count_dict}
use milky_frog_lite.Compaction.{
  cutoff, on_before_model, content_tokens, Compacted, FinalOf, force_compact, count_request_tokens,
  with_calls, already_folded, none,
}

abbrev by_chars : TokenCounter
by_chars = record { count_text = count; dump_calls = λ _. "[]"; dump_schema = λ _. "{}" }

abbrev call : ToolCall
call = record { id = "a"; name = "read_file"; arguments = empty }

abbrev state : RunState
state = record (new_state "r" "/w") {
  messages =
      plain_message user "read the whole file"
      ∷ synthetic_message call
      ∷ result_message call (error_result "no such file here")
      ∷ plain_message assistant "done"
      ∷ [];
}

abbrev summarizer : FinalOf
summarizer request = some (record {
  content = "the file is missing";
  tool_calls = [];
  usage = no_usage;
  model = "m";
  reasoning = "";
})

abbrev proposed : Compacted
proposed = record {
  compaction = record { summary = "the file is missing"; through_index = 3 };
  messages_folded = 3;
  usage = no_usage;
}

-- The pivot is the Tool result, and the cut moves past it.
cuts_behind_tool : cutoff by_chars 10 state ≡ some 3
unfolding cutoff content_tokens with_calls
cuts_behind_tool = refl

declines : cutoff by_chars 4 (record state { messages = plain_message user "go" ∷ [] }) ≡ none
unfolding cutoff content_tokens with_calls
declines = refl

proposes :
    on_before_model by_chars 20 10 summarizer
      (record { messages = state.messages; tools = []; run_id = "r" })
      state
    ≡ some proposed
unfolding on_before_model count_request_tokens message_count_dict content_tokens
proposes = refl

cutoff-IsCut_example : IsCut by_chars 10 state.messages (already_folded state) 3
cutoff-IsCut_example = cutoff-IsCut by_chars 10 state 3 cuts_behind_tool

abbrev short : RunState
short = record state { messages = plain_message user "go" ∷ [] }

on_before_model-Advances_example :
    (20
      < count_request_tokens by_chars
          (record { messages = state.messages; tools = []; run_id = "r" }))
    × Advances state proposed
on_before_model-Advances_example =
    on_before_model-Advances by_chars 20 10 summarizer
      (record { messages = state.messages; tools = []; run_id = "r" }) state proposed proposes

abbrev all_folded : Compacted
all_folded = record {
  compaction = record { summary = "the file is missing"; through_index = 4 };
  messages_folded = 4;
  usage = no_usage;
}

forces : force_compact summarizer by_chars state 0 ≡ some all_folded
unfolding force_compact
forces = refl

force_compact-Advances_example : Advances state all_folded
force_compact-Advances_example =
    force_compact-Advances summarizer by_chars state 0 all_folded forces
