-- ===== src/Snapshot/Nested.antt =====
-- checkpoint/snapshot.py: the snapshots inside a snapshot, of a Tool call, of the usage and of the
-- compaction, with their conversions.
use milky_frog_lite.Prelude.{ℕ, String, List, [], ◌∷◌, Option, none, some, map, ◌≡◌, refl, ap₂}
use milky_frog_lite.Domain.Json.{JsonObject}
use milky_frog_lite.Domain.Message.{ToolCall}
use milky_frog_lite.Domain.Usage.{RunUsage}
use milky_frog_lite.Domain.Run.{CompactionState}

pub record ToolCallSnapshot : Type 0 where
  pub id : String
  pub name : String
  pub arguments : JsonObject

pub record TokenUsageSnapshot : Type 0 where
  pub input_tokens : ℕ
  pub output_tokens : ℕ
  pub cached_tokens : ℕ
  pub reasoning_tokens : ℕ

pub record RunUsageSnapshot : Type 0 where
  pub cumulative : TokenUsageSnapshot
  pub context_tokens : ℕ

pub record CompactionSnapshot : Type 0 where
  pub summary : String
  pub through_index : ℕ

abbrev pub call_to_snapshot : ToolCall → ToolCallSnapshot
call_to_snapshot call = record { id = call.id; name = call.name; arguments = call.arguments }

abbrev pub call_from_snapshot : ToolCallSnapshot → ToolCall
call_from_snapshot call = record { id = call.id; name = call.name; arguments = call.arguments }

abbrev pub usage_to_snapshot : RunUsage → RunUsageSnapshot
usage_to_snapshot usage = record {
  cumulative = record {
    input_tokens = usage.cumulative.input_tokens;
    output_tokens = usage.cumulative.output_tokens;
    cached_tokens = usage.cumulative.cached_tokens;
    reasoning_tokens = usage.cumulative.reasoning_tokens;
  };
  context_tokens = usage.context_tokens;
}

abbrev pub usage_from_snapshot : RunUsageSnapshot → RunUsage
usage_from_snapshot usage = record {
  cumulative = record {
    input_tokens = usage.cumulative.input_tokens;
    output_tokens = usage.cumulative.output_tokens;
    cached_tokens = usage.cumulative.cached_tokens;
    reasoning_tokens = usage.cumulative.reasoning_tokens;
  };
  context_tokens = usage.context_tokens;
}

abbrev pub compaction_to_snapshot : Option CompactionState → Option CompactionSnapshot
compaction_to_snapshot none = none
compaction_to_snapshot (some compaction) =
    some (record { summary = compaction.summary; through_index = compaction.through_index })

abbrev pub compaction_from_snapshot : Option CompactionSnapshot → Option CompactionState
compaction_from_snapshot none = none
compaction_from_snapshot (some snapshot) =
    some (record { summary = snapshot.summary; through_index = snapshot.through_index })

pub calls_back :
    (calls : List ToolCall) → map call_from_snapshot (map call_to_snapshot calls) ≡ calls
calls_back [] = refl
calls_back (call ∷ calls) = ap₂ (λ c cs. c ∷ cs) refl (calls_back calls)

pub compaction_back :
    (compaction : Option CompactionState)
    → compaction_from_snapshot (compaction_to_snapshot compaction) ≡ compaction
compaction_back none = refl
compaction_back (some compaction) = refl
