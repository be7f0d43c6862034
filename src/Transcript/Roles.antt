-- ===== src/Transcript/Roles.antt =====
-- Which messages the operations of harness/state.py can put into a transcript.
use milky_frog_lite.Prelude.{◌≡◌, String, List, All, All-append, [], none, some, ◌∷◌, map, refl}
use milky_frog_lite.Domain.Message.{
  Message, MessageRole, ToolCall, ToolResult, system, user, assistant, tool,
}
use milky_frog_lite.Domain.Run.{RunState, ModelResponse}
use milky_frog_lite.Transcript.{
  start_run, append_user_message, with_run_skills, append_model_response,
  append_synthetic_tool_call, append_tool_result, seal, unmatched_tool_calls, kept_reasoning,
}
use milky_frog_lite.Transcript.Seal.{seal_lem, interrupted}

-- What a message of each role carries. The system prompt is never part of a transcript, and the
-- reasoning of the provider stands only beside Tool calls.
abbrev pub Carries : MessageRole → Message → Type 0
Carries system m = ⊥
Carries user m = (m.tool_calls ≡ []) × (m.tool_call_id ≡ none) × (m.reasoning ≡ "")
Carries assistant m = (m.tool_call_id ≡ none) × (m.tool_calls ≡ [] → m.reasoning ≡ "")
Carries tool m =
    (m.tool_calls ≡ []) × ((id : String) × (m.tool_call_id ≡ some id)) × (m.reasoning ≡ "")

abbrev pub IsTranscript : List Message → Type 0
IsTranscript = All (λ (m : Message). Carries m.role m)

-- The operations of the module, as steps of one state.
pub data Step (s : RunState) : RunState → Type 0 where
  starts : (prompt : String) → Step s (start_run s prompt)
  says : (content : String) → Step s (append_user_message s content)
  skills : (extra selected : List String) → Step s (with_run_skills s extra selected)
  responds : (response : ModelResponse) → Step s (append_model_response s response)
  synthesizes : (call : ToolCall) → Step s (append_synthetic_tool_call s call)
  returns : (call : ToolCall) (result : ToolResult) → Step s (append_tool_result s call result)
  seals : Step s (seal s).0

pub data Reach (s : RunState) : RunState → Type 0 where
  here : Reach s s
  next : {t u : RunState} → Reach s t → Step t u → Reach s u

kept_reasoning_lem :
    (calls : List ToolCall) (reasoning : String) → calls ≡ [] → kept_reasoning calls reasoning ≡ ""
kept_reasoning_lem [] reasoning h = refl
kept_reasoning_lem (c ∷ calls) reasoning h = cc

interrupted-IsTranscript : (calls : List ToolCall) → IsTranscript (map interrupted calls)
interrupted-IsTranscript [] = tt
interrupted-IsTranscript (c ∷ calls) = ((refl, (c.id, refl), refl), interrupted-IsTranscript calls)

pub Step-IsTranscript :
    {s t : RunState} → Step s t → IsTranscript s.messages → IsTranscript t.messages
unfolding start_run append_user_message with_run_skills append_model_response
    append_synthetic_tool_call append_tool_result
Step-IsTranscript (starts prompt) h = ((refl, refl, refl), tt)
Step-IsTranscript {s} (says content) h = All-append _ s.messages _ h ((refl, refl, refl), tt)
Step-IsTranscript (skills extra selected) h = h
Step-IsTranscript {s} (responds r) h =
    All-append _ s.messages _ h ((refl, kept_reasoning_lem r.tool_calls r.reasoning), tt)
Step-IsTranscript {s} (synthesizes call) h = All-append _ s.messages _ h ((refl, λ _. refl), tt)
Step-IsTranscript {s} (returns call result) h =
    All-append _ s.messages _ h ((refl, (call.id, refl), refl), tt)
Step-IsTranscript {s} seals h =
    rw (seal_lem s)
      (All-append _ s.messages _ h (interrupted-IsTranscript (unmatched_tool_calls s.messages)))

-- Whatever operations grow a transcript from a well-formed one, it never holds a SYSTEM message,
-- only assistant messages carry Tool calls, every Tool message answers an id, and reasoning is
-- kept only beside Tool calls.
pub Reach-IsTranscript :
    {s t : RunState} → Reach s t → IsTranscript s.messages → IsTranscript t.messages
Reach-IsTranscript here h = h
Reach-IsTranscript (next r st) h = Step-IsTranscript st (Reach-IsTranscript r h)
