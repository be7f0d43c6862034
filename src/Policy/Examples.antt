-- ===== src/Policy/Examples.antt =====
-- Tests and an instance: a denial outlives the approval of everything, and not a reset.
use milky_frog_lite.Policy.{decide}
use milky_frog_lite.Prelude.{[], ◌∷◌, refl, ◌≡◌}
use milky_frog_lite.Domain.Json.{empty}
use milky_frog_lite.Domain.Message.{ToolCall, needs_approval, deny}
use milky_frog_lite.Registry
use milky_frog_lite.Registry.{ToolRegistry}
use milky_frog_lite.Policy.History.{
  denies, auto_approves, resets, after, decision_by, newest_override, approves_all, decide-after,
}

abbrev registry : ToolRegistry
registry = record { builtin_names = []; tools = [] }

abbrev call : ToolCall
call = record { id = "a"; name = "bash"; arguments = empty }

still_denied : decide (after registry (auto_approves ∷ denies "bash" ∷ [])) call ≡ deny
unfolding decide after
still_denied = refl

asks_again :
    decide (after registry (resets ∷ auto_approves ∷ denies "bash" ∷ [])) call ≡ needs_approval
unfolding decide after Registry.get
asks_again = refl

decide-after_example :
    decide (after registry (auto_approves ∷ denies "bash" ∷ [])) call
    ≡ decision_by
        (newest_override (auto_approves ∷ denies "bash" ∷ []) "bash")
        (approves_all (auto_approves ∷ denies "bash" ∷ []))
        registry
        call
decide-after_example = decide-after registry (auto_approves ∷ denies "bash" ∷ []) call
