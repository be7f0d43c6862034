-- ===== src/Events/Loop/Bound.antt =====
-- A turn of the loop grows the state of its Run, by one response of the model if the loop goes on;
-- so the loop ends, and within its limit.
use milky_frog_lite.Prelude.{ℕ, Bool, true, false, List, [], ◌∷◌, Option, none, some, inl, ◌⊎◌, inr}
use milky_frog_lite.Domain.Message.{ToolCall}
use milky_frog_lite.Domain.Run.{RunState, ModelRequest, ModelResponse, Compacted}
use milky_frog_lite.Transcript.{append_model_response}
use milky_frog_lite.Events.{World}
use milky_frog_lite.Events.Loop.Model.{LoopHost}
use milky_frog_lite.Events.Loop.Batch.{Decided, BatchResult}
use milky_frog_lite.Events.Loop.Turn.{
  Finish, stop_if, stop_pending, Batched, check_cancelled, shape, prepare, call_model, end_turn,
  run_synthesized, run_runnable, run_calls, respond, turn,
}
use milky_frog_lite.Events.Loop.Growth.{
  Evolves, here, responds, Returns-tt, Leaves, step_on-Leaves, tagged-Leaves, tagged_turn-Leaves,
  apply_control-Evolves, append_synthesized-Evolves, execute_decided_batch-Evolves,
}

-- Left within one turn: with one response more, or with none.
abbrev pub Within : RunState → RunState → Type 0
Within s t = Evolves s t 0 ⊎ Evolves s t 1

module _ {X : Type 0} {s : RunState} where
  stop_if-Leaves :
      (n : ℕ) (P : RunState → Type 0) (b : Bool) (how : Finish) (t : RunState) (w : World X)
      → Evolves s t n
      → P t
      → Leaves (λ (u : RunState). Evolves s u n) P (stop_if b how t w).0
  unfolding Leaves
  stop_if-Leaves n P true how t w e p = p
  stop_if-Leaves n P false how t w e p = e

  stop_pending-Leaves :
      (n : ℕ) (P : RunState → Type 0) (calls : List ToolCall) (t : RunState) (w : World X)
      → Evolves s t n
      → P t
      → Leaves (λ (u : RunState). Evolves s u n) P (stop_pending calls t w).0
  unfolding Leaves
  stop_pending-Leaves n P [] t w e p = e
  stop_pending-Leaves n P (c ∷ calls) t w e p = p

module _ {X : Type 0} (host : LoopHost X) {s : RunState} where
  check-Leaves :
      (t : RunState) (w : World X)
      → Evolves s t 0
      → Leaves (λ (u : RunState). Evolves s u 0) (Within s) (check_cancelled host t w).0
  unfolding check_cancelled
  check-Leaves t w e = stop_if-Leaves 0 (Within s) _ _ t w e (inl e)

  shape-Leaves :
      (request : ModelRequest) (t : RunState) (c : Option Compacted) (w : World X)
      → Evolves s t 0
      → Leaves
          (λ (p : RunState × ModelRequest). Evolves s p.0 0)
          (Within s)
          (shape host request (t, c) w).0
  unfolding shape Leaves
  shape-Leaves request t none w e = e
  shape-Leaves request t (some c) w e =
      step_on-Leaves _ (Within s) _ _ _
        (tagged-Leaves (λ _. Unit) (Within s) t _ (Returns-tt _) (inl e)) (λ _ v _. e)

  prepare-Leaves :
      (t : RunState) (w : World X)
      → Evolves s t 0
      → Leaves (λ (p : RunState × ModelRequest). Evolves s p.0 0) (Within s) (prepare host t w).0
  unfolding prepare
  prepare-Leaves t w e =
      step_on-Leaves _ (Within s) _ _ _
        (tagged-Leaves (λ _. Unit) (Within s) t _ (Returns-tt _) (inl e))
        (λ _ v _.
          step_on-Leaves _ (Within s) _ _ _
            (tagged-Leaves (λ _. Unit) (Within s) t _ (Returns-tt _) (inl e))
            (λ shaping u _. shape-Leaves _ _ _ u (apply_control-Evolves shaping t none e)))

  call_model-Leaves :
      (p : RunState × ModelRequest) (w : World X)
      → Evolves s p.0 0
      → Leaves
          (λ (a : RunState × ModelResponse). Evolves s a.0 1)
          (Within s)
          (call_model host p w).0
  unfolding call_model Leaves
  call_model-Leaves (t, request) w e =
      step_on-Leaves _ (Within s) _ _ _ (tagged_turn-Leaves (Within s) t _ (inl e)) (λ response v _.
        step_on-Leaves _ (Within s) _ _ _
          (tagged-Leaves (λ _. Unit) (Within s) (append_model_response t response) _ (Returns-tt _)
            (inr (responds e response)))
          (λ _ u _. responds e response))

  end_turn-Leaves :
      (t : RunState) (w : World X)
      → Evolves s t 1
      → Leaves (λ (u : RunState). Evolves s u 1) (Within s) (end_turn host t w).0
  unfolding end_turn Leaves
  end_turn-Leaves t w e =
      step_on-Leaves _ (Within s) _ _ _
        (tagged-Leaves (λ _. Unit) (Within s) t _ (Returns-tt _) (inr e)) (λ _ v _. e)

  run_synthesized-Leaves :
      (t : RunState) (needs calls : List ToolCall) (w : World X)
      → Evolves s t 1
      → Leaves
          (λ (b : Batched). Evolves s b.state 1)
          (Within s)
          (run_synthesized host t needs calls w).0
  unfolding run_synthesized Leaves
  run_synthesized-Leaves t needs [] w e = e
  run_synthesized-Leaves t needs (c ∷ calls) w e =
      step_on-Leaves _ (Within s) _ _ _
        (tagged-Leaves (λ (b : BatchResult). Evolves s b.state 1) (Within s) t _
          (execute_decided_batch-Evolves host t.run_id _ t w e) (inr e))
        (λ b v l.
          step_on-Leaves _ (Within s) _ _ _ (stop_if-Leaves 1 (Within s) _ _ b.state v l (inr l))
            (λ _ u _. l))

  run_runnable-Leaves :
      (t : RunState) (ds : List Decided) (needs : List ToolCall) (w : World X)
      → Evolves s t 1
      → Leaves (λ (b : Batched). Evolves s b.state 1) (Within s) (run_runnable host t ds needs w).0
  unfolding run_runnable Leaves
  run_runnable-Leaves t [] needs w e = e
  run_runnable-Leaves t (d ∷ ds) needs w e =
      step_on-Leaves _ (Within s) _ _ _
        (tagged-Leaves (λ (b : BatchResult). Evolves s b.state 1) (Within s) t _
          (execute_decided_batch-Evolves host t.run_id (d ∷ ds) t w e) (inr e))
        (λ b v l.
          step_on-Leaves _ (Within s) _ _ _ (stop_if-Leaves 1 (Within s) _ _ b.state v l (inr l))
            (λ _ u _. run_synthesized-Leaves _ needs _ u (append_synthesized-Evolves _ b.state l)))

  run_calls-Leaves :
      (t : RunState) (calls : List ToolCall) (w : World X)
      → Evolves s t 1
      → Leaves (λ (u : RunState). Evolves s u 1) (Within s) (run_calls host t calls w).0
  unfolding run_calls
  run_calls-Leaves t calls w e =
      step_on-Leaves _ (Within s) _ _ _ (run_runnable-Leaves t _ _ w e) (λ b v l.
        step_on-Leaves _ (Within s) _ _ _
          (stop_pending-Leaves 1 (Within s) b.needs_approval b.state v l (inr l))
          (λ _ u _. end_turn-Leaves b.state u l))

  respond-Leaves :
      (t : RunState) (response : ModelResponse) (calls : List ToolCall) (w : World X)
      → Evolves s t 1
      → Leaves (λ (u : RunState). Evolves s u 1) (Within s) (respond host (t, response) calls w).0
  unfolding respond Leaves check_cancelled
  respond-Leaves t response [] w e =
      step_on-Leaves _ (Within s) _ _ _ (end_turn-Leaves t w e) (λ ended v l. inr l)
  respond-Leaves t response (c ∷ calls) w e =
      step_on-Leaves _ (Within s) _ _ _
        (stop_if-Leaves 1 (Within s) (host.is_cancelled w.outside) Finish.as_cancelled t w e
          (inr e))
        (λ _ v _. run_calls-Leaves t (c ∷ calls) v e)

-- A turn from which the loop goes on took exactly one response of the model; one that leaves the
-- loop took at most one. Beside that it only compacts, and appends results and synthesized calls.
pub turn-Leaves :
    {X : Type 0} (host : LoopHost X) (state : RunState) (w : World X)
    → Leaves (λ (t : RunState). Evolves state t 1) (Within state) (turn host state w).0
unfolding turn
turn-Leaves host state w =
    step_on-Leaves _ (Within state) _ _ _ (check-Leaves host state w here) (λ _ v _.
      step_on-Leaves _ (Within state) _ _ _ (prepare-Leaves host state v here) (λ p u e'.
        step_on-Leaves _ (Within state) _ _ _ (call_model-Leaves host p u e')
          (λ a x l. respond-Leaves host a.0 a.1 a.1.tool_calls x l)))
