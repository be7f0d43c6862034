-- ===== src/Models/Examples.antt =====
-- Instances: a stream with one Tool call in two pieces, and a model that fails once.
use milky_frog_lite.Prelude.{
  List, true, if◌then◌else◌, [], arith, some, ◌∷◌, ◌≡◌, ◌==◌, none, refl, false,
}
use milky_frog_lite.Domain.Json.{empty}
use milky_frog_lite.Models.{
  CallDelta, Received, arrives, JsonText, stream, merge_all, if◌then◌else◌, [], List, some, none,
}
use milky_frog_lite.Models.Fragments.{pieces, find_fragment, later, merge_all-assembled}
use milky_frog_lite.Models.Stream.{IsClosed, stream-IsClosed}
use milky_frog_lite.Domain.Message.{Message, assistant}
use milky_frog_lite.Models.Payload.{message_payload, read_payload, read_payload-message_payload}
use milky_frog_lite.Models.Client.{aclose, after_ops, new_model, enters, closes, aclose-after_ops}
use milky_frog_lite.Models.Retry.{RetryingModel, GaveUp, retrying_stream, retrying_stream-GaveUp}
use milky_frog_lite.Events.{error, returned, Raised}
use milky_frog_lite.Events.Loop.Model.{text_delta, stream_raises}

abbrev call_pieces : List CallDelta
call_pieces =
    record { index = 1; id = "b"; name = "bash"; arguments = "{" }
    ∷ record { index = 0; id = "a"; name = "read"; arguments = "{}" }
    ∷ record { index = 1; id = ""; name = ""; arguments = "}" }
    ∷ []

assembled_call :
    find_fragment 1 (merge_all call_pieces [])
    ≡ some (record { id = "b"; name = "bash"; arguments = "{}" })
unfolding merge_all
assembled_call = refl

merge_all-assembled_example :
    find_fragment 1 (merge_all call_pieces []) ≡ later none (pieces 1 call_pieces)
merge_all-assembled_example = merge_all-assembled 1 call_pieces

abbrev json : JsonText
json = record { loads = λ _. returned (some empty) }

abbrev received : List Received
received =
    arrives (record {
      usage = none;
      choices = record { reasoning_content = "hm"; content = "do"; tool_calls = call_pieces } ∷ [];
    })
    ∷ []

stream-IsClosed_example : IsClosed [] [] (stream json "m" received)
stream-IsClosed_example = stream-IsClosed json "m" received

abbrev flaky : RetryingModel
flaky = record {
  inner = λ n.
      if n == 1
      then text_delta "d" ∷ stream_raises (error "TimeoutError" "" none) ∷ []
      else text_delta "done" ∷ [];
  is_retriable = λ _. true;
  max_attempts = 3;
}

retrying_stream-GaveUp_example : GaveUp (λ _. true) 2 (retrying_stream flaky)
retrying_stream-GaveUp_example = retrying_stream-GaveUp flaky (omega arith)

-- A call without arguments, and a text for them.
abbrev asking : Message
asking = record {
  role = assistant;
  content = "done";
  tool_calls = record { id = "a"; name = "bash"; arguments = empty } ∷ [];
  tool_call_id = none;
  reasoning = "hm";
}

read_payload-message_payload_example :
    read_payload (λ _. empty) (message_payload (λ _. "{}") asking)
    ≡ ("assistant", "done", "hm", record { id = "a"; name = "bash"; arguments = empty } ∷ [], none)
read_payload-message_payload_example =
    read_payload-message_payload (λ _. "{}") (λ _. empty) asking (refl, tt)

abbrev broken : Raised
broken = error "APIConnectionError" "closed" none

aclose-after_ops_example :
    (aclose none
      (after_ops (enters ∷ enters ∷ closes (some broken) ∷ enters ∷ []) (new_model false))).1.opened
    ≡ (aclose none (
        after_ops
          (enters ∷ enters ∷ closes (some broken) ∷ enters ∷ [])
          (new_model false))).1.closed
aclose-after_ops_example =
    aclose-after_ops false (enters ∷ enters ∷ closes (some broken) ∷ enters ∷ [])
