-- ===== src/ViewModels/Examples.antt =====
-- An instance: a batch of two calls, of which the user denies the first and always allows the Tool
-- of the second.
use milky_frog_lite.Policy.{new_policy}
use milky_frog_lite.Prelude.{none, ◌∷◌, [], true, arith, false, refl}
use Prim.Native.String.{[]}
use milky_frog_lite.ViewModels.Approval.{ApprovalRequired, TuiHost, begin, new_view_model}
use milky_frog_lite.ViewModels.Approval.Answers.{
  begin-HandedOver, HandedOver, choices, by_deny, by_allow_tool,
}

abbrev app : TuiHost
app = record {
  pending_approval = none;
  busy = true;
  policy = new_policy (record { builtin_names = []; tools = [] });
  input_disabled = false;
  started = [];
}

abbrev batch : ApprovalRequired
batch = record {
  run_id = "r";
  approvals =
      record { call_id = "a"; tool_name = "bash"; reason = "" }
      ∷ record { call_id = "b"; tool_name = "edit"; reason = "" }
      ∷ [];
}

begin-HandedOver_example :
    HandedOver batch [] (choices ("deny" ∷ "allow_tool" ∷ []) (begin batch (new_view_model app)))
begin-HandedOver_example =
    begin-HandedOver batch (new_view_model app) ("deny" ∷ "allow_tool" ∷ [])
      (by_deny refl, (by_allow_tool refl, tt)) (omega arith)
