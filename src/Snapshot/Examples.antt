-- ===== src/Snapshot/Examples.antt =====
-- The codec of snapshots kept as they are, and instances of the theorems.
use milky_frog_lite.Snapshot.Nested.{usage_to_snapshot}
use milky_frog_lite.Domain.Usage.{no_run_usage}
use milky_frog_lite.Snapshot.Roundtrip.{load_run_state-dump_run_state}
use milky_frog_lite.Prelude.{refl, some, ◌≡◌, [], ◌∷◌, none}
use milky_frog_lite.Domain.Message.{plain_message, user}
use milky_frog_lite.Domain.Run.{RunState, new_state, foreground}
use milky_frog_lite.Snapshot.{Codec, load_run_state, dump_run_state, RunSnapshot, usage_to_snapshot}

abbrev verbatim : Codec
verbatim = record {
  Encoded = RunSnapshot;
  encode = λ s. s;
  decode = λ s. some s;
  decode-encode = λ s h. refl;
}

abbrev state : RunState
state = record (new_state "r" "/w") { messages = plain_message user "go" ∷ [] }

load_run_state-dump_run_state_example :
    load_run_state verbatim "r" "/w" (dump_run_state verbatim state) ≡ some state
load_run_state-dump_run_state_example =
    load_run_state-dump_run_state verbatim state ((refl, refl, refl), tt)

-- An old snapshot with a system prompt in its transcript.
abbrev old_snapshot : RunSnapshot
old_snapshot = record {
  version = 1;
  messages =
      record {
        role = "system";
        content = "be brief";
        tool_calls = [];
        tool_call_id = none;
        reasoning = none;
      }
      ∷ record {
        role = "user";
        content = "go";
        tool_calls = [];
        tool_call_id = none;
        reasoning = none;
      }
      ∷ [];
  completed_model_calls = 0;
  legacy_reasoning_log = [];
  usage = usage_to_snapshot no_run_usage;
  compaction = none;
  run_extra = [];
  selected_skills = [];
  run_kind = foreground;
  parent_run_id = none;
}

loads_old : load_run_state verbatim "r" "/w" old_snapshot ≡ some state
unfolding load_run_state
loads_old = refl
