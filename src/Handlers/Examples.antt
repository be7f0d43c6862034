-- ===== src/Handlers/Examples.antt =====
-- An instance: a Run whose completion is broadcast.
use milky_frog_lite.Prelude.{List, [], ◌∷◌, none, some, ◌≡◌, refl, ok}
use milky_frog_lite.Domain.Message.{plain_message, user}
use milky_frog_lite.Domain.Run.{RunState, new_state, running, completed}
use milky_frog_lite.Snapshot.{Codec, RunSnapshot, to_snapshot}
use milky_frog_lite.Checkpoint.{Row, find_row, load_state}
use milky_frog_lite.Events.{World, run_completed}
use milky_frog_lite.Events.Emitter.{result_of}
use milky_frog_lite.Events.Hub.{new_hub, broadcast}
use milky_frog_lite.Events.Loop.Outcome.{completes}
use milky_frog_lite.Handlers.{Store, register}
use milky_frog_lite.Handlers.Durable.{terminal-IsDurable}

abbrev verbatim : Codec
verbatim = record {
  Encoded = RunSnapshot;
  encode = λ s. s;
  decode = λ s. some s;
  decode-encode = λ s h. refl;
}

abbrev store : Store verbatim (List (Row verbatim))
store = record {
  rows_of = λ rows. rows;
  put = λ rows _. rows;
  now = λ _. 7;
  rows_of-put = λ rows x. refl;
}

abbrev state : RunState
state = record (new_state "a" "/w") { messages = plain_message user "go" ∷ [] }

abbrev row : Row verbatim
row = record {
  stored = record {
    run_id = "a";
    workspace = "/w";
    status = running;
    created_at = 1;
    updated_at = 5;
    final_message = none;
  };
  state_json = to_snapshot (new_state "a" "/w");
}

abbrev world : World (List (Row verbatim))
world = record { events = []; outside = row ∷ [] }

terminal-IsDurable_example :
    load_state verbatim
      (broadcast
        (register verbatim store new_hub)
        (run_completed "a" (result_of state completed "done") state)
        world).1.outside
      "a"
    ≡ ok state
unfolding find_row to_snapshot
terminal-IsDurable_example =
    terminal-IsDurable verbatim store world row (completes "done") refl refl
      ((refl, refl, refl), tt)
