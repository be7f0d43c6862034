-- ===== src/Budget/Examples.antt =====
-- Tests and instances of the budget's theorems: a transcript whose oldest turn is trimmed.
use Prim.Native.String.{count}
use milky_frog_lite.Prelude.{[], ◌∷◌, refl, ◌≡◌, some, true, ◌⊎◌, false}
use milky_frog_lite.Domain.Json.{empty}
use milky_frog_lite.Domain.Message.{Message, plain_message, system, user, error_result, assistant}
use milky_frog_lite.Domain.Run.{ModelRequest}
use milky_frog_lite.Transcript.{result_message}
use milky_frog_lite.Tokens.{TokenCounter, count_request_tokens, message_count_dict}
use milky_frog_lite.Budget.{
  TokenBudget, trim, BudgetConfig, within, suffix_fits, trim_configured, trim_request,
}
use milky_frog_lite.Budget.Laws.{IsTrimOf}
use milky_frog_lite.Budget.Trim.{trim-within, trim-IsTrimOf}

abbrev by_chars : TokenCounter
by_chars = record { count_text = count; dump_calls = λ _. "[]"; dump_schema = λ _. "{}" }

abbrev small : BudgetConfig
small = record { context_window = 80; output_reserve = 10; safety_margin = 10 }

abbrev budget : TokenBudget
budget = record { counter = some by_chars; config = some small }

abbrev prompt : Message
prompt = plain_message system "be brief"

abbrev answer : Message
answer = plain_message assistant "done"

abbrev long_request : ModelRequest
long_request = record {
  messages =
      prompt
      ∷ plain_message user "read the whole file"
      ∷ result_message (record { id = "a"; name = "read_file"; arguments = empty })
          (error_result "no")
      ∷ answer
      ∷ [];
  tools = [];
  run_id = "r";
}

trims_orphan : trim budget long_request ≡ record long_request { messages = prompt ∷ answer ∷ [] }
unfolding trim trim_configured trim_request suffix_fits count_request_tokens message_count_dict
trims_orphan = refl

trim-IsTrimOf_example : IsTrimOf by_chars small long_request (trim budget long_request)
unfolding within suffix_fits count_request_tokens message_count_dict
trim-IsTrimOf_example = trim-IsTrimOf by_chars small budget long_request refl refl refl refl

trim-within_example :
    ((suffix_fits by_chars small long_request [] ≡ true)
      × (within by_chars small (count_request_tokens by_chars (trim budget long_request)) ≡ true))
    ⊎ ((suffix_fits by_chars small long_request [] ≡ false)
        × (trim budget long_request ≡ long_request))
trim-within_example = trim-within by_chars small budget long_request refl refl
