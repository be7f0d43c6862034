-- ===== src/Models/Client.antt =====
-- models/openai.py: the client that an OpenAIModel holds between `async with` and its exit.
use Prim.Native.Nat.{ℕ}
use milky_frog_lite.Prelude.{
  ◌∷◌, ℕ, List, if◌then◌else◌, Bool, ◌≡◌, Option, some, [], true, ◌+◌, arith, false, not, ◌||◌,
  none,
}
use milky_frog_lite.Events.{Raised, error, Attempt, returned, raised}

-- The client is the injected one, or one that the model opened; and how many clients it has opened
-- and closed so far.
pub record OpenAiModel : Type 0 where
  pub has_injected : Bool
  pub has_client : Bool
  pub opened : ℕ
  pub closed : ℕ

abbrev pub new_model : Bool → OpenAiModel
new_model injected = record { has_injected = injected; has_client = false; opened = 0; closed = 0 }

-- `__aenter__`
unfoldable pub enter : OpenAiModel → OpenAiModel
enter m =
    if m.has_client
    then m
    else if m.has_injected
    then record m { has_client = true }
    else record m { has_client = true; opened = m.opened + 1 }

-- `await self._client.close()`, then `self._client = None`: an exception keeps the client.
unfoldable pub close_owned : Option Raised → OpenAiModel → Attempt Bool × OpenAiModel
close_owned none m = (returned true, record m { has_client = false; closed = m.closed + 1 })
close_owned (some e) m = (raised e, m)

-- `aclose`, given the exception of `client.close()`, if it raises one
unfoldable pub aclose : Option Raised → OpenAiModel → Attempt Bool × OpenAiModel
unfolding close_owned
aclose failure m =
    if not m.has_client || m.has_injected
    then (returned true, record m { has_client = false })
    else close_owned failure m

-- `_require_client`
unfoldable pub require_client : OpenAiModel → Attempt Bool
require_client m =
    if m.has_client
    then returned true
    else raised
        (error "RuntimeError" "OpenAIModel must be entered with `async with` before use" none)

-- Entering the model, and closing it, where `client.close()` raises or not.
pub data ClientOp : Type 0 where
  enters : ClientOp
  closes : Option Raised → ClientOp

abbrev pub after_ops : List ClientOp → OpenAiModel → OpenAiModel
after_ops [] m = m
after_ops (enters ∷ ops) m = after_ops ops (enter m)
after_ops (closes failure ∷ ops) m = after_ops ops (aclose failure m).1

-- How many clients of its own the model holds.
abbrev held : OpenAiModel → ℕ
held m = if m.has_injected then 0 else if m.has_client then 1 else 0

-- The clients that were opened are those that were closed and the one that is held.
abbrev IsBalanced : OpenAiModel → Type 0
IsBalanced m = m.opened ≡ m.closed + held m

enter-IsBalanced : (m : OpenAiModel) → IsBalanced m → IsBalanced (enter m)
unfolding enter
enter-IsBalanced m h = ground arith

aclose-IsBalanced :
    (failure : Option Raised) (m : OpenAiModel) → IsBalanced m → IsBalanced (aclose failure m).1
unfolding aclose
aclose-IsBalanced none m h = ground arith
aclose-IsBalanced (some e) m h = ground arith

after_ops-IsBalanced :
    (ops : List ClientOp) (m : OpenAiModel) → IsBalanced m → IsBalanced (after_ops ops m)
after_ops-IsBalanced [] m h = h
after_ops-IsBalanced (enters ∷ ops) m h = after_ops-IsBalanced ops (enter m) (enter-IsBalanced m h)
after_ops-IsBalanced (closes failure ∷ ops) m h =
    after_ops-IsBalanced ops (aclose failure m).1 (aclose-IsBalanced failure m h)

after_close : (m : OpenAiModel) → held (aclose none m).1 ≡ 0
unfolding aclose
after_close m = ground arith

-- However often a model is entered and closed, closings that raised included, once `client.close()`
-- does not raise every client that the model opened is closed, each of them once.
pub aclose-after_ops :
    (injected : Bool) (ops : List ClientOp)
    → (aclose none (after_ops ops (new_model injected))).1.opened
      ≡ (aclose none (after_ops ops (new_model injected))).1.closed
aclose-after_ops injected ops =
    let m = after_ops ops (new_model injected) in
    let e =
      aclose-IsBalanced none m (after_ops-IsBalanced ops (new_model injected) (ground arith)) in
    let z = after_close m in omega (arith, e, z)
