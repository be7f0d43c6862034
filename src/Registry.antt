-- ===== src/Registry.antt =====
-- harness/tools/registry.py: the Tools of a session, and what of a Tool the runtime reads.
pub mod Laws
mod Examples
use milky_frog_lite.Prelude.{
  ℕ, ◌+◌, Bool, not, String, List, [], ◌∷◌, ◌++◌, Option, none, some, map, filter, contains, str_eq,
  if◌then◌else◌,
}
use milky_frog_lite.Domain.Json.{JsonObject}

-- `requires_approval` is what `getattr(tool, "requires_approval", True)` returns.
pub record Tool : Type 0 where
  pub name : String
  pub description : String
  pub input_schema : JsonObject
  pub requires_approval : Bool
  pub needs_approval_for_call : Option (JsonObject → Bool)

abbrev pub names : List Tool → List String
names = map (λ (t : Tool). t.name)

-- The tools stand in the order of the dictionary; their keys are their names.
pub record ToolRegistry : Type 0 where
  pub builtin_names : List String
  pub tools : List Tool

-- `none` is `DuplicateToolError`.
unfoldable pub register : ToolRegistry → Tool → Option ToolRegistry
register r tool =
    if contains (names r.tools) tool.name
    then none
    else some (record r { tools = r.tools ++ tool ∷ [] })

unfoldable pub register_all : ToolRegistry → List Tool → Option ToolRegistry
register_all r [] = some r
register_all r (tool ∷ tools) = elim (register r tool) [
  | none ↦ none
  | some r' ↦ register_all r' tools
]

-- The constructor.
unfoldable pub new_registry : List Tool → Option ToolRegistry
unfolding register_all
new_registry tools = register_all (record { builtin_names = names tools; tools = [] }) tools

-- The second loop of `replace_mcp_tools`: a conflict is skipped, and not counted.
unfoldable pub register_mcp : ToolRegistry → List Tool → ℕ → ToolRegistry × ℕ
register_mcp r [] registered = (r, registered)
register_mcp r (tool ∷ tools) registered = elim (register r tool) [
  | none ↦ register_mcp r tools registered
  | some r' ↦ register_mcp r' tools (registered + 1)
]

abbrev pub drop_mcp : ToolRegistry → ToolRegistry
drop_mcp r = record r { tools = filter (λ t. contains r.builtin_names t.name) r.tools }

unfoldable pub replace_mcp_tools : ToolRegistry → List Tool → ToolRegistry × ℕ
unfolding register_mcp
replace_mcp_tools r mcp_tools = register_mcp (drop_mcp r) mcp_tools 0

find_tool : List Tool → String → Option Tool
find_tool [] name = none
find_tool (t ∷ ts) name = if str_eq t.name name then some t else find_tool ts name

-- `none` is `UnknownToolError`.
unfoldable pub get : ToolRegistry → String → Option Tool
unfolding find_tool
get r name = find_tool r.tools name
