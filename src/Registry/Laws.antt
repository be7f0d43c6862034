-- ===== src/Registry/Laws.antt =====
-- The registry keeps its names distinct, and `replace_mcp_tools` keeps the builtin Tools.
use milky_frog_lite.Prelude.{
  AreDistinct, AreDistinct-snoc, Bool, String, List, [], ◌∷◌, contains, ◌≡◌, false, ◌++◌, str_eq,
  true, arith, if◌then◌else◌, ℕ, none, ◌∙◌, ◌+◌, ◌⊎◌, eq_iff, some, refl, length, Bool-cases, inl,
  inr, append-nil, ap₂, filter, append_assoc, sym, subst, map-append, ap,
}
use milky_frog_lite.Registry.{
  Tool, ToolRegistry, names, register, register_mcp, find_tool, get, replace_mcp_tools, drop_mcp,
}

register_cases :
    (r : ToolRegistry) (tool : Tool)
    → ((contains (names r.tools) tool.name ≡ true) × (register r tool ≡ none))
      ⊎ ((contains (names r.tools) tool.name ≡ false)
          × (register r tool ≡ some (record r { tools = r.tools ++ tool ∷ [] })))
unfolding register
register_cases r tool = elim (Bool-cases (contains (names r.tools) tool.name)) [
  | inl h ↦ inl (h, rw h)
  | inr h ↦ inr (h, rw h)
]

-- What `replace_mcp_tools` leaves of the tools offered: the first of each name that is not taken.
pub new_tools : List String → List Tool → List Tool
new_tools taken [] = []
new_tools taken (t ∷ ts) =
    let fresh = t ∷ new_tools (taken ++ t.name ∷ []) ts in
    let rest = new_tools taken ts in if contains taken t.name then rest else fresh

register_mcp_lem :
    (r : ToolRegistry) (mcp : List Tool) (n : ℕ)
    → register_mcp r mcp n ≡ (
      record r { tools = r.tools ++ new_tools (names r.tools) mcp },
      n + length (new_tools (names r.tools) mcp),
    )
unfolding register_mcp new_tools
register_mcp_lem r [] n =
    ap₂ (λ ts k. (record r { tools = ts }, k)) (sym (append-nil r.tools)) (omega arith)
register_mcp_lem r (t ∷ ts) n = elim (register_cases r t) [
  | inl (taken, e) ↦ rw (e, register_mcp, taken) (register_mcp_lem r ts n)
  | inr (free, e) ↦
      rw (e, register_mcp, free)
        (register_mcp_lem (record r { tools = r.tools ++ t ∷ [] }) ts (n + 1)
          ∙ rw (map-append) (
              ap₂ (λ us k. (record r { tools = us }, k))
                (append_assoc r.tools (t ∷ []) (new_tools (names r.tools ++ t.name ∷ []) ts))
                (omega arith)))
]

-- Replacing the MCP Tools keeps the builtin ones in their order, adds behind them the first Tool of
-- each offered name that is not taken, and returns how many it added.
pub replace_mcp_tools_lem :
    (r : ToolRegistry) (mcp : List Tool)
    → replace_mcp_tools r mcp ≡ (
      record r {
        tools =
            filter (λ t. contains r.builtin_names t.name) r.tools
            ++ new_tools (names (filter (λ t. contains r.builtin_names t.name) r.tools)) mcp;
      },
      length (new_tools (names (filter (λ t. contains r.builtin_names t.name) r.tools)) mcp),
    )
unfolding replace_mcp_tools
replace_mcp_tools_lem r mcp =
    register_mcp_lem (drop_mcp r) mcp 0
    ∙ ap
        (λ k. (
          record r {
            tools =
                filter (λ t. contains r.builtin_names t.name) r.tools
                ++ new_tools (names (filter (λ t. contains r.builtin_names t.name) r.tools)) mcp;
          },
          k,
        ))
        (omega arith)

contains-names-filter :
    (p : Tool → Bool) (ts : List Tool) (n : String)
    → contains (names ts) n ≡ false
    → contains (names (filter p ts)) n ≡ false
contains-names-filter p [] n h = refl
contains-names-filter p (t ∷ ts) n h = ground (arith, h, contains-names-filter p ts n)

AreDistinct-filter :
    (p : Tool → Bool) (ts : List Tool) → AreDistinct (names ts) → AreDistinct (names (filter p ts))
AreDistinct-filter p [] d = tt
AreDistinct-filter p (t ∷ ts) d = elim (Bool-cases (p t)) [
  | inl h ↦ rw h (contains-names-filter p ts t.name d.0, AreDistinct-filter p ts d.1)
  | inr h ↦ rw h (AreDistinct-filter p ts d.1)
]

AreDistinct-new_tools :
    (taken : List String) (ts : List Tool)
    → AreDistinct taken
    → AreDistinct (taken ++ names (new_tools taken ts))
unfolding new_tools
AreDistinct-new_tools taken [] d = rw append-nil d
AreDistinct-new_tools taken (t ∷ ts) d = elim (Bool-cases (contains taken t.name)) [
  | inl h ↦ rw h (AreDistinct-new_tools taken ts d)
  | inr h ↦ rw h (
      rw (← append_assoc taken (t.name ∷ []) (names (new_tools (taken ++ t.name ∷ []) ts)))
        (AreDistinct-new_tools (taken ++ t.name ∷ []) ts (AreDistinct-snoc taken t.name d h)))
]

-- The names of a registry stay distinct when its MCP Tools are replaced.
replace_mcp_tools-AreDistinct :
    (r : ToolRegistry) (mcp : List Tool)
    → AreDistinct (names r.tools)
    → AreDistinct (names (replace_mcp_tools r mcp).0.tools)
replace_mcp_tools-AreDistinct r mcp d = rw (replace_mcp_tools_lem r mcp) (
    rw map-append (
      AreDistinct-new_tools (names (drop_mcp r).tools) mcp
        (AreDistinct-filter (λ t. contains r.builtin_names t.name) r.tools d)))

find_tool-append :
    (ts us : List Tool) (t : Tool) (n : String)
    → find_tool ts n ≡ some t
    → find_tool (ts ++ us) n ≡ some t
unfolding find_tool
find_tool-append [] us t n h = cc
find_tool-append (x ∷ ts) us t n h = ground (arith, h, find_tool-append ts us t n)

find_tool-filter :
    (builtin : List String) (ts : List Tool) (t : Tool) (n : String)
    → contains builtin n ≡ true
    → find_tool ts n ≡ some t
    → find_tool (filter (λ (u : Tool). contains builtin u.name) ts) n ≡ some t
unfolding find_tool
find_tool-filter builtin [] t n b h = cc
find_tool-filter builtin (x ∷ ts) t n b h = elim (Bool-cases (str_eq x.name n)) [
  | inl same ↦
      let kept : contains builtin x.name ≡ true =
        subst (λ k. contains builtin k ≡ true) (sym ((eq_iff x.name n).0 same)) b in
      rw (kept, same) (rw same at h)
  | inr other ↦
      let ih = find_tool-filter builtin ts t n b (rw other at h) in
      elim (Bool-cases (contains builtin x.name)) [
        | inl kept ↦ rw (kept, other) ih
        | inr gone ↦ rw gone ih
      ]
]

-- A builtin Tool that the registry holds is found unchanged after the MCP Tools are replaced,
-- whatever names the new ones bear.
pub get-replace_mcp_tools :
    (r : ToolRegistry) (mcp : List Tool) (name : String) (t : Tool)
    → contains r.builtin_names name ≡ true
    → get r name ≡ some t
    → get (replace_mcp_tools r mcp).0 name ≡ some t
unfolding get
get-replace_mcp_tools r mcp name t b h = rw (replace_mcp_tools_lem r mcp) (
    find_tool-append (drop_mcp r).tools _ t name
      (find_tool-filter r.builtin_names r.tools t name b h))
