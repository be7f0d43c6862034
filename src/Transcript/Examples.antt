-- ===== src/Transcript/Examples.antt =====
-- Tests and instances of the transcript's theorems.
use milky_frog_lite.Domain.Json.{empty}
use milky_frog_lite.Domain.Usage.{no_usage}
use milky_frog_lite.Domain.Run.{new_state, RunState, ModelResponse}
use milky_frog_lite.Domain.Message.{ToolCall, error_result}
use milky_frog_lite.Prelude.{[], ◌≡◌, filter, not, str_eq, ◌++◌, ◌∷◌, refl, map}
use milky_frog_lite.Transcript.{
  seal, append_tool_result, unmatched_tool_calls, start_run, append_model_response, satisfied,
}
use milky_frog_lite.Transcript.Matching.{
  waits, unmatched-append_tool_result, unmatched-append_model_response,
}
use milky_frog_lite.Transcript.Seal.{seal_lem, unmatched-seal, interrupted, is_nonempty}
use milky_frog_lite.Transcript.Roles.{
  here, IsTranscript, Reach-IsTranscript, next, starts, responds, returns,
}

abbrev call_a : ToolCall
call_a = record { id = "a"; name = "bash"; arguments = empty }

abbrev call_b : ToolCall
call_b = record { id = "b"; name = "grep"; arguments = empty }

abbrev response : ModelResponse
response = record {
  content = "";
  tool_calls = call_a ∷ call_b ∷ [];
  usage = no_usage;
  model = "m";
  reasoning = "think";
}

abbrev fresh : RunState
fresh = start_run (new_state "r" "/w") "go"

abbrev mid_turn : RunState
mid_turn = append_tool_result (append_model_response fresh response) call_b (error_result "no")

one_waits : unmatched_tool_calls mid_turn.messages ≡ call_a ∷ []
unfolding unmatched_tool_calls append_tool_result append_model_response start_run
one_waits = refl

unmatched-append_tool_result_example :
    unmatched_tool_calls (append_tool_result mid_turn call_a (error_result "x")).messages
    ≡ filter (λ c. not (str_eq "a" c.id)) (unmatched_tool_calls mid_turn.messages)
unmatched-append_tool_result_example =
    unmatched-append_tool_result mid_turn call_a (error_result "x")

unmatched-append_model_response_example :
    unmatched_tool_calls (append_model_response fresh response).messages
    ≡ unmatched_tool_calls fresh.messages
      ++ filter (waits (satisfied fresh.messages)) (call_a ∷ call_b ∷ [])
unmatched-append_model_response_example = unmatched-append_model_response fresh response

unmatched-seal_example : unmatched_tool_calls (seal mid_turn).0.messages ≡ []
unmatched-seal_example = unmatched-seal mid_turn

seal_lem_example : seal mid_turn ≡ (
  record mid_turn {
    messages = mid_turn.messages ++ map interrupted (unmatched_tool_calls mid_turn.messages);
  },
  is_nonempty (unmatched_tool_calls mid_turn.messages),
)
seal_lem_example = seal_lem mid_turn

Reach-IsTranscript_example : IsTranscript mid_turn.messages
Reach-IsTranscript_example =
    Reach-IsTranscript {s = new_state "r" "/w"}
      (next (next (next here (starts "go")) (responds response))
        (returns call_b (error_result "no")))
      tt
