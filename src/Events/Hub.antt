-- ===== src/Events/Hub.antt =====
-- events/hub.py: Handlers subscribe with a priority, and the Harness broadcasts to them in order.
-- `_observe` is a function from the class of an event to what is registered for it.
pub mod Order
use milky_frog_lite.Prelude.{
  ℕ, ◌+◌, Bool, true, ◌||◌, ◌&&◌, List, [], ◌∷◌, ◌++◌, Option, none, some, ltb, ◌==◌, if◌then◌else◌,
}
use milky_frog_lite.Domain.Run.{Compacted}
use milky_frog_lite.Events.{Event, EventType, type_of, Attempt, World, Effect, ◌>>=◌, give}

-- A callback proposes a change, or observes only, and may raise.
abbrev pub HandlerCallback : Type 0 → Type 0
HandlerCallback X = Event → X → Attempt (Option Compacted) × X

-- A priority is 0 or 100 in the source, so a natural number.
pub record Registration (X : Type 0) : Type 0 where
  pub priority : ℕ
  pub order : ℕ
  pub handler : HandlerCallback X

pub record EventHub (X : Type 0) : Type 0 where
  pub registered : EventType → List (Registration X)
  pub next_order : ℕ

-- `if result is not None: results.append(result)`
abbrev pub collect : Option Compacted → List Compacted → List Compacted
collect none results = results
collect (some p) results = p ∷ results

module _ {X : Type 0} where
  unfoldable pub new_hub : EventHub X
  new_hub = record { registered = λ _. []; next_order = 0 }

  -- `_registration`
  abbrev pub registration : EventHub X → ℕ → HandlerCallback X → Registration X
  registration hub priority handler = record {
    priority = priority;
    order = hub.next_order;
    handler = handler;
  }

  -- `observe(event_type, priority=priority)(handler)`; `same` tells whether a class is that one.
  unfoldable pub observe : EventHub X → (EventType → Bool) → ℕ → HandlerCallback X → EventHub X
  observe hub same priority handler = record {
    registered = λ t.
        if same t
        then hub.registered t ++ registration hub priority handler ∷ []
        else hub.registered t;
    next_order = hub.next_order + 1;
  }

  -- `subscribe`: one registration under every class
  unfoldable pub subscribe : EventHub X → HandlerCallback X → ℕ → EventHub X
  subscribe hub handler priority = observe hub (λ _. true) priority handler

  -- `(-r.priority, r.order)` of the first is less than of the second
  abbrev pub precedes : Registration X → Registration X → Bool
  precedes r s = ltb s.priority r.priority || (r.priority == s.priority && ltb r.order s.order)

  unfoldable pub insert : Registration X → List (Registration X) → List (Registration X)
  insert r [] = r ∷ []
  insert r (s ∷ ss) = if precedes s r then s ∷ insert r ss else r ∷ s ∷ ss

  -- `_sorted`, as an insertion sort: the key of the source is a total order and its sort is stable.
  unfoldable pub sorted : List (Registration X) → List (Registration X)
  unfolding insert
  sorted [] = []
  sorted (r ∷ rs) = insert r (sorted rs)

  -- A callback sees the outside world only.
  abbrev pub call_handler : Event → Registration X → Effect X (Option Compacted)
  call_handler event r w =
      ((r.handler event w.outside).0, record w { outside = (r.handler event w.outside).1 })

  unfoldable pub deliver : Event → List (Registration X) → Effect X (List Compacted)
  deliver event [] = give []
  deliver event (r ∷ rs) = do
    result ← call_handler event r
    results ← deliver event rs
    give (collect result results)

  -- The signal is recorded as broadcast, then delivered.
  abbrev pub record_event : Event → World X → World X
  record_event event w = record w { events = w.events ++ event ∷ [] }

  unfoldable pub broadcast : EventHub X → Event → Effect X (List Compacted)
  unfolding deliver sorted
  broadcast hub event w =
      deliver event (sorted (hub.registered (type_of event))) (record_event event w)
