-- ===== src/Shutdown.antt =====
-- core/shutdown.py: the teardown of a session in two phases, whoever asks for it and how often. An
-- exception of a Handler, the model or the factory is logged by the source and ends nothing; what
-- the foreground Run and the worker do when they are cancelled is not part of this model.
pub mod Once
mod Examples
use milky_frog_lite.Prelude.{
  ℕ, Bool, true, false, ◌&&◌, String, List, [], ◌∷◌, ◌++◌, Option, none, some, map, if◌then◌else◌,
}

-- What the manager does to the resources it is given.
pub data Action : Type 0 where
  shuts_run exits_model closes_factory : Action
  cancels_worker : ℕ → Action
  exits_handler : String → Action

-- Handlers are names and workers numbers; the sandbox factory counts if it has an `aclose`.
pub record ShutdownManager : Type 0 where
  pub shutdown_requested : Bool
  pub shutdown_done : Bool
  pub cleanup_done : Bool
  pub foreground : Bool
  pub handlers : List String
  pub model : Bool
  pub sandbox_factory : Bool
  pub cancel_worker : Option ℕ

abbrev pub new_manager : ShutdownManager
new_manager = record {
  shutdown_requested = false;
  shutdown_done = false;
  cleanup_done = false;
  foreground = false;
  handlers = [];
  model = false;
  sandbox_factory = false;
  cancel_worker = none;
}

abbrev pub Acted : Type 0
Acted = ShutdownManager × List Action

abbrev pub worker_actions : Option ℕ → List Action
worker_actions none = []
worker_actions (some n) = cancels_worker n ∷ []

abbrev pub when : Bool → Action → List Action
when true a = a ∷ []
when false a = []

-- `shutdown_run` by `_shutdown_done`, the foreground Run and the worker
unfoldable pub shut : Bool → Bool → Option ℕ → ShutdownManager → Acted
shut true fg worker m = (m, [])
shut false false none m = (m, [])
shut false false (some n) m =
    (record m { shutdown_done = true; cancel_worker = none }, cancels_worker n ∷ [])
shut false true worker m =
    (record m { shutdown_done = true; cancel_worker = none }, shuts_run ∷ worker_actions worker)

unfoldable pub shutdown_run : ShutdownManager → Acted
unfolding shut
shutdown_run m = shut m.shutdown_done m.foreground m.cancel_worker m

unfoldable pub shutdown_if : Bool → ShutdownManager → Acted
shutdown_if true m = shutdown_run m
shutdown_if false m = (m, [])

unfoldable pub wire : List String → Bool → ShutdownManager → Acted
unfolding shutdown_if
wire handlers factory m =
    shutdown_if m.shutdown_requested
      (record m { foreground = true; handlers = handlers; model = true; sandbox_factory = factory })

unfoldable pub attach : Bool → Option ℕ → ShutdownManager → Acted
attach true (some n) m = (m, cancels_worker n ∷ [])
attach true none m = (record m { cancel_worker = none }, [])
attach false worker m = (record m { cancel_worker = worker }, [])

unfoldable pub attach_worker : Option ℕ → ShutdownManager → Acted
unfolding attach
attach_worker worker m = attach m.shutdown_requested worker m

unfoldable pub request_shutdown : ShutdownManager → Acted
unfolding shutdown_run
request_shutdown m = shutdown_run (record m { shutdown_requested = true })

-- `reversed`
unfoldable pub reversed : List String → List String
reversed [] = []
reversed (h ∷ hs) = reversed hs ++ h ∷ []

-- what `cleanup` releases, in its order
unfoldable pub releases : ShutdownManager → List Action
unfolding reversed
releases m =
    map exits_handler (reversed m.handlers)
    ++ (when m.model exits_model ++ when m.sandbox_factory closes_factory)

unfoldable pub clean : Bool → ShutdownManager → Acted
unfolding releases shutdown_run
clean true m = (m, [])
clean false m = (
  (shutdown_run (record m { cleanup_done = true })).0,
  (shutdown_run (record m { cleanup_done = true })).1 ++ releases m,
)

unfoldable pub cleanup : ShutdownManager → Acted
unfolding clean
cleanup m = clean m.cleanup_done m

-- The calls that the callers make, in any order.
pub data Op : Type 0 where
  wires : List String → Bool → Op
  attaches : Option ℕ → Op
  requests runs_down cleans : Op

unfoldable pub act : Op → ShutdownManager → Acted
act (wires handlers factory) m = wire handlers factory m
act (attaches worker) m = attach_worker worker m
act requests m = request_shutdown m
act runs_down m = shutdown_run m
act cleans m = cleanup m

unfoldable pub act_all : List Op → ShutdownManager → Acted
act_all [] m = (m, [])
act_all (op ∷ ops) m = ((act_all ops (act op m).0).0, (act op m).1 ++ (act_all ops (act op m).0).1)
