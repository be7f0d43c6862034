-- ===== src/Tokens/Examples.antt =====
-- A counter of one token a character, and the estimate at a request.
use Prim.Native.String.{count}
use milky_frog_lite.Prelude.{[], ◌∷◌, refl, ◌≡◌}
use milky_frog_lite.Domain.Message.{plain_message, system, user}
use milky_frog_lite.Domain.Run.{ModelRequest}
use milky_frog_lite.Tokens.{TokenCounter, count_request_tokens, message_count_dict}

abbrev by_chars : TokenCounter
by_chars = record { count_text = count; dump_calls = λ _. "[]"; dump_schema = λ _. "{}" }

abbrev hello : ModelRequest
hello = record {
  messages = plain_message system "be brief" ∷ plain_message user "hello" ∷ [];
  tools = [];
  run_id = "r";
}

count_hello : count_request_tokens by_chars hello ≡ 32
unfolding count_request_tokens message_count_dict
count_hello = refl
