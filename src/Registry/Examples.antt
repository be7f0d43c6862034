-- ===== src/Registry/Examples.antt =====
-- Instances of the registry's theorems.
use milky_frog_lite.Registry.Laws.{get-replace_mcp_tools, new_tools, replace_mcp_tools_lem}
use milky_frog_lite.Prelude.{
  [], ◌∷◌, refl, ◌≡◌, some, List, String, filter, true, none, contains, ◌++◌, length,
}
use milky_frog_lite.Domain.Json.{empty}
use milky_frog_lite.Registry.{
  get, Tool, new_registry, ToolRegistry, replace_mcp_tools, names, register,
}

abbrev named : String → Tool
named n = record {
  name = n;
  description = "";
  input_schema = empty;
  requires_approval = true;
  needs_approval_for_call = none;
}

abbrev builtins : ToolRegistry
builtins = record {
  builtin_names = "bash" ∷ "grep" ∷ [];
  tools = named "bash" ∷ named "grep" ∷ named "old" ∷ [];
}

abbrev offered : List Tool
offered = named "grep" ∷ named "x" ∷ named "x" ∷ []

replaced :
    replace_mcp_tools builtins offered
    ≡ (record builtins { tools = named "bash" ∷ named "grep" ∷ named "x" ∷ [] }, 1)
unfolding replace_mcp_tools register
replaced = refl

duplicate : new_registry (named "a" ∷ named "a" ∷ []) ≡ none
unfolding new_registry register
duplicate = refl

replace_mcp_tools_lem_example : replace_mcp_tools builtins offered ≡ (
  record builtins {
    tools =
        filter (λ t. contains builtins.builtin_names t.name) builtins.tools
        ++ new_tools
            (names (filter (λ t. contains builtins.builtin_names t.name) builtins.tools))
            offered;
  },
  length (
      new_tools
        (names (filter (λ t. contains builtins.builtin_names t.name) builtins.tools))
        offered),
)
replace_mcp_tools_lem_example = replace_mcp_tools_lem builtins offered

get-replace_mcp_tools_example :
    get (replace_mcp_tools builtins offered).0 "grep" ≡ some (named "grep")
unfolding get
get-replace_mcp_tools_example =
    get-replace_mcp_tools builtins offered "grep" (named "grep") refl refl
