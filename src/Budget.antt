-- ===== src/Budget.antt =====
-- harness/budget.py: a request is trimmed to the token budget before each model call. The test
-- `count <= context_window - output_reserve - safety_margin`, over Python's integers, is written
-- with the two subtractions moved to the left.
mod Examples
pub mod Laws
pub mod Trim
use milky_frog_lite.Prelude.{
  ℕ, zero, suc, ◌+◌, Bool, not, String, List, [], ◌∷◌, ◌++◌, Option, none, some, length, drop,
  filter, leb, if◌then◌else◌,
}
use milky_frog_lite.Domain.Message.{Message, MessageRole, is_system, is_tool}
use milky_frog_lite.Domain.Run.{ModelRequest}
use milky_frog_lite.Tokens.{TokenCounter, count_request_tokens}

pub record BudgetConfig : Type 0 where
  pub context_window : ℕ
  pub output_reserve : ℕ
  pub safety_margin : ℕ

-- The object: the counter, and the configuration once `init_for_workspace` has loaded it.
pub record TokenBudget : Type 0 where
  pub counter : Option TokenCounter
  pub config : Option BudgetConfig

-- `init_for_workspace`, given the approximate counter and the loaded project configuration.
unfoldable pub init_for_workspace : TokenCounter → BudgetConfig → TokenBudget → TokenBudget
init_for_workspace approximate cfg budget = record {
  counter = elim budget.counter [ none ↦ some approximate | some c ↦ some c ];
  config = some cfg;
}

-- `systems` and `rest` of `_trim_request`
abbrev pub system_messages : List Message → List Message
system_messages = filter (λ m. is_system m.role)

abbrev pub other_messages : List Message → List Message
other_messages = filter (λ m. not (is_system m.role))

unfoldable pub drop_leading_tools : List Message → List Message
drop_leading_tools [] = []
drop_leading_tools (m ∷ ms) =
    let rest = drop_leading_tools ms in if is_tool m.role then rest else m ∷ ms

module _ (counter : TokenCounter) (cfg : BudgetConfig) where
  unfoldable pub within : ℕ → Bool
  within tokens = leb (tokens + cfg.output_reserve + cfg.safety_margin) cfg.context_window

  -- The candidate request: the system messages, then a suffix of the others.
  abbrev pub candidate : ModelRequest → List Message → ModelRequest
  candidate request kept = record {
    messages = system_messages request.messages ++ kept;
    tools = request.tools;
    run_id = "";
  }

  unfoldable pub suffix_fits : ModelRequest → List Message → Bool
  unfolding within
  suffix_fits request kept = within (count_request_tokens counter (candidate request kept))

  -- `for i in range(len(rest) - 1, -1, -1)`: the rounds left are `i + 1`.
  unfoldable pub grow_suffix : ModelRequest → List Message → ℕ → ℕ → ℕ
  grow_suffix request rest zero start = start
  grow_suffix request rest (suc i) start =
      let further = grow_suffix request rest i i in
      if suffix_fits request (drop i rest) then further else start

  unfoldable pub boundary : ModelRequest → ℕ
  unfolding grow_suffix
  boundary request =
      let rest = other_messages request.messages in
      grow_suffix request rest (length rest) (length rest)

  unfoldable pub trim_nonempty : ModelRequest → ModelRequest
  unfolding boundary drop_leading_tools
  trim_nonempty request =
      if suffix_fits request []
      then record request {
        messages =
            system_messages request.messages
            ++ drop_leading_tools (drop (boundary request) (other_messages request.messages));
      }
      else request

  trim_request_at : List Message → ModelRequest → ModelRequest
  trim_request_at [] request = request
  trim_request_at (_ ∷ _) request = trim_nonempty request

  -- `_trim_request`; a request whose system messages and schemas do not fit is sent unmodified.
  unfoldable pub trim_request : ModelRequest → ModelRequest
  unfolding trim_request_at trim_nonempty
  trim_request request = trim_request_at request.messages request

  unfoldable pub trim_configured : ModelRequest → ModelRequest
  trim_configured request =
      if within (count_request_tokens counter request) then request else trim_request request

trim_with : Option TokenCounter → Option BudgetConfig → ModelRequest → ModelRequest
trim_with (some counter) (some cfg) request = trim_configured counter cfg request
trim_with none cfg request = request
trim_with (some counter) none request = request

-- Without a counter or a configuration the request is left alone.
unfoldable pub trim : TokenBudget → ModelRequest → ModelRequest
unfolding trim_with
trim budget request = trim_with budget.counter budget.config request
