-- ===== src/Domain/Usage.antt =====
-- domain/usage.py: the token accounting of a Run.
use milky_frog_lite.Prelude.{ℕ, ◌+◌, Bool, ltb, if◌then◌else◌}

pub record TokenUsage : Type 0 where
  pub input_tokens : ℕ
  pub output_tokens : ℕ
  pub cached_tokens : ℕ
  pub reasoning_tokens : ℕ

abbrev pub no_usage : TokenUsage
no_usage = record { input_tokens = 0; output_tokens = 0; cached_tokens = 0; reasoning_tokens = 0 }

abbrev pub total_tokens : TokenUsage → ℕ
total_tokens u = u.input_tokens + u.output_tokens

abbrev pub recorded : TokenUsage → Bool
recorded u = ltb 0 (total_tokens u)

-- `TokenUsage.__add__`
abbrev pub add : TokenUsage → TokenUsage → TokenUsage
add u v = record {
  input_tokens = u.input_tokens + v.input_tokens;
  output_tokens = u.output_tokens + v.output_tokens;
  cached_tokens = u.cached_tokens + v.cached_tokens;
  reasoning_tokens = u.reasoning_tokens + v.reasoning_tokens;
}

pub record RunUsage : Type 0 where
  pub cumulative : TokenUsage
  pub context_tokens : ℕ

abbrev pub no_run_usage : RunUsage
no_run_usage = record { cumulative = no_usage; context_tokens = 0 }

-- `RunUsage.record`
unfoldable pub record_call : RunUsage → TokenUsage → RunUsage
record_call u call = record {
  cumulative = add u.cumulative call;
  context_tokens = if recorded call then call.input_tokens else u.context_tokens;
}
