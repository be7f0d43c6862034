-- ===== src/Shutdown/Once.antt =====
-- However often the phases are asked for, and by whomever, each acts once.
use milky_frog_lite.Prelude.{
  ℕ, ◌+◌, ◌≤◌, Bool, true, false, String, List, [], ◌∷◌, ◌++◌, Option, none, some, map, ◌≡◌, refl,
  ap, ◌∙◌, arith,
}
use milky_frog_lite.Shutdown.{
  Action, shuts_run, exits_model, closes_factory, cancels_worker, exits_handler, ShutdownManager,
  new_manager, Acted, when, shut, shutdown_run, shutdown_if, wire, attach, attach_worker,
  request_shutdown, reversed, releases, clean, cleanup, Op, wires, attaches, requests, runs_down,
  cleans, act, act_all,
}

-- How often the foreground Run is shut down, and the model is closed.
unfoldable pub shutdowns : List Action → ℕ
shutdowns [] = 0
shutdowns (shuts_run ∷ xs) = shutdowns xs + 1
shutdowns (exits_model ∷ xs) = shutdowns xs
shutdowns (closes_factory ∷ xs) = shutdowns xs
shutdowns (cancels_worker n ∷ xs) = shutdowns xs
shutdowns (exits_handler h ∷ xs) = shutdowns xs

unfoldable pub closings : List Action → ℕ
closings [] = 0
closings (shuts_run ∷ xs) = closings xs
closings (exits_model ∷ xs) = closings xs + 1
closings (closes_factory ∷ xs) = closings xs
closings (cancels_worker n ∷ xs) = closings xs
closings (exits_handler h ∷ xs) = closings xs

shutdowns-append : (xs ys : List Action) → shutdowns (xs ++ ys) ≡ shutdowns xs + shutdowns ys
unfolding shutdowns
shutdowns-append [] ys = omega arith
shutdowns-append (shuts_run ∷ xs) ys = let h = shutdowns-append xs ys in omega arith
shutdowns-append (exits_model ∷ xs) ys = shutdowns-append xs ys
shutdowns-append (closes_factory ∷ xs) ys = shutdowns-append xs ys
shutdowns-append (cancels_worker n ∷ xs) ys = shutdowns-append xs ys
shutdowns-append (exits_handler h ∷ xs) ys = shutdowns-append xs ys

closings-append : (xs ys : List Action) → closings (xs ++ ys) ≡ closings xs + closings ys
unfolding closings
closings-append [] ys = omega arith
closings-append (shuts_run ∷ xs) ys = closings-append xs ys
closings-append (exits_model ∷ xs) ys = let h = closings-append xs ys in omega arith
closings-append (closes_factory ∷ xs) ys = closings-append xs ys
closings-append (cancels_worker n ∷ xs) ys = closings-append xs ys
closings-append (exits_handler h ∷ xs) ys = closings-append xs ys

-- What a flag leaves to be done.
abbrev left : Bool → ℕ
left true = 0
left false = 1

-- An action keeps within what the flags leave.
record IsWithin (done cleaned : Bool) (a : Acted) : Type 0 where
  shutdown_within : shutdowns a.1 + left a.0.shutdown_done ≤ left done
  closing_within : closings a.1 + left a.0.cleanup_done ≤ left cleaned

idle-IsWithin : (m : ShutdownManager) → IsWithin m.shutdown_done m.cleanup_done (m, [])
unfolding shutdowns closings
idle-IsWithin m = record { shutdown_within = omega arith; closing_within = omega arith }

shut-IsWithin :
    (done fg : Bool) (worker : Option ℕ) (m : ShutdownManager)
    → m.shutdown_done ≡ done
    → IsWithin m.shutdown_done m.cleanup_done (shut done fg worker m)
unfolding shut shutdowns closings
shut-IsWithin true fg worker m e = idle-IsWithin m
shut-IsWithin false false none m e = idle-IsWithin m
shut-IsWithin false false (some n) m e = record {
  shutdown_within = rw e (omega arith);
  closing_within = omega arith;
}
shut-IsWithin false true none m e = record {
  shutdown_within = rw e (omega arith);
  closing_within = omega arith;
}
shut-IsWithin false true (some n) m e = record {
  shutdown_within = rw e (omega arith);
  closing_within = omega arith;
}

shutdown_run-IsWithin :
    (m : ShutdownManager) → IsWithin m.shutdown_done m.cleanup_done (shutdown_run m)
unfolding shutdown_run
shutdown_run-IsWithin m = shut-IsWithin m.shutdown_done m.foreground m.cancel_worker m refl

shutdown_if-IsWithin :
    (b : Bool) (m : ShutdownManager) → IsWithin m.shutdown_done m.cleanup_done (shutdown_if b m)
unfolding shutdown_if
shutdown_if-IsWithin true m = shutdown_run-IsWithin m
shutdown_if-IsWithin false m = idle-IsWithin m

attach-IsWithin :
    (b : Bool) (worker : Option ℕ) (m : ShutdownManager)
    → IsWithin m.shutdown_done m.cleanup_done (attach b worker m)
unfolding attach shutdowns closings
attach-IsWithin true none m = idle-IsWithin (record m { cancel_worker = none })
attach-IsWithin true (some n) m = record {
  shutdown_within = omega arith;
  closing_within = omega arith;
}
attach-IsWithin false worker m = idle-IsWithin (record m { cancel_worker = worker })

shutdowns-append_handlers :
    (hs : List String) (xs : List Action) → shutdowns (map exits_handler hs ++ xs) ≡ shutdowns xs
unfolding shutdowns
shutdowns-append_handlers [] xs = refl
shutdowns-append_handlers (h ∷ hs) xs = shutdowns-append_handlers hs xs

closings-append_handlers :
    (hs : List String) (xs : List Action) → closings (map exits_handler hs ++ xs) ≡ closings xs
unfolding closings
closings-append_handlers [] xs = refl
closings-append_handlers (h ∷ hs) xs = closings-append_handlers hs xs

whens :
    (model factory : Bool)
    → (shutdowns (when model exits_model ++ when factory closes_factory) ≡ 0)
      × (closings (when model exits_model ++ when factory closes_factory) ≤ 1)
unfolding shutdowns closings
whens true true = (refl, omega arith)
whens true false = (refl, omega arith)
whens false true = (refl, omega arith)
whens false false = (refl, omega arith)

releases_once : (m : ShutdownManager) → (shutdowns (releases m) ≡ 0) × (closings (releases m) ≤ 1)
unfolding releases
releases_once m =
    let w = whens m.model m.sandbox_factory in
    (
      shutdowns-append_handlers (reversed m.handlers) _ ∙ w.0,
      omega (
        arith,
        closings-append_handlers (reversed m.handlers)
            (when m.model exits_model ++ when m.sandbox_factory closes_factory),
        w.1,
      ),
    )

cleaned-shut :
    (done fg : Bool) (worker : Option ℕ) (m : ShutdownManager)
    → (closings (shut done fg worker m).1 ≡ 0)
      × ((shut done fg worker m).0.cleanup_done ≡ m.cleanup_done)
unfolding shut closings
cleaned-shut true fg worker m = (refl, refl)
cleaned-shut false false none m = (refl, refl)
cleaned-shut false false (some n) m = (refl, refl)
cleaned-shut false true none m = (refl, refl)
cleaned-shut false true (some n) m = (refl, refl)

shutdown_run-keeps :
    (m : ShutdownManager)
    → (closings (shutdown_run m).1 ≡ 0) × ((shutdown_run m).0.cleanup_done ≡ m.cleanup_done)
unfolding shutdown_run
shutdown_run-keeps m = cleaned-shut m.shutdown_done m.foreground m.cancel_worker m

clean-IsWithin :
    (b : Bool) (m : ShutdownManager)
    → m.cleanup_done ≡ b
    → IsWithin m.shutdown_done m.cleanup_done (clean b m)
unfolding clean
clean-IsWithin true m e = idle-IsWithin m
clean-IsWithin false m e =
    let n = record m { cleanup_done = true } in
    let h = shutdown_run-IsWithin n in
    let c = shutdown_run-keeps n in
    let r = releases_once m in
    record {
      shutdown_within =
          omega (arith, shutdowns-append (shutdown_run n).1 (releases m), h.shutdown_within, r.0);
      closing_within =
          rw e
            (omega (arith, closings-append (shutdown_run n).1 (releases m), c.0, ap left c.1, r.1));
    }

act-IsWithin : (op : Op) (m : ShutdownManager) → IsWithin m.shutdown_done m.cleanup_done (act op m)
unfolding act wire attach_worker request_shutdown cleanup
act-IsWithin (wires handlers factory) m = shutdown_if-IsWithin m.shutdown_requested _
act-IsWithin (attaches worker) m = attach-IsWithin m.shutdown_requested worker m
act-IsWithin requests m = shutdown_run-IsWithin (record m { shutdown_requested = true })
act-IsWithin runs_down m = shutdown_run-IsWithin m
act-IsWithin cleans m = clean-IsWithin m.cleanup_done m refl

all-IsWithin :
    (ops : List Op) (m : ShutdownManager) → IsWithin m.shutdown_done m.cleanup_done (act_all ops m)
unfolding act_all
all-IsWithin [] m = idle-IsWithin m
all-IsWithin (op ∷ ops) m =
    let h = act-IsWithin op m in
    let t = all-IsWithin ops (act op m).0 in
    record {
      shutdown_within = omega (
        arith,
        shutdowns-append (act op m).1 (act_all ops (act op m).0).1,
        h.shutdown_within,
        t.shutdown_within,
      );
      closing_within = omega (
        arith,
        closings-append (act op m).1 (act_all ops (act op m).0).1,
        h.closing_within,
        t.closing_within,
      );
    }

-- Whatever calls reach a new manager, in whatever order, the foreground Run is shut down at most
-- once and the model is closed at most once.
pub act_all_once :
    (ops : List Op)
    → (shutdowns (act_all ops new_manager).1 ≤ 1) × (closings (act_all ops new_manager).1 ≤ 1)
act_all_once ops =
    let h = all-IsWithin ops new_manager in
    (omega (arith, h.shutdown_within), omega (arith, h.closing_within))
