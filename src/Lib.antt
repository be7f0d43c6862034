-- ===== src/Lib.antt =====
-- Milky Frog, an agent runtime (src/milky_frog): a Run is a conversation with a language model that
-- calls Tools, pauses for the user's approval, is trimmed and compacted to fit the model's context,
-- and is checkpointed so that it can be resumed.
--
-- The parts, and the file that models each (paths from the root of the repository):
--   * Domain: the records and enumerations of src/milky_frog/domain.
--   * Transcript: src/milky_frog/harness/state.py, every operation that grows or repairs the
--     transcript of a Run. A RunState is the record RunState, and an operation a function on it.
--   * Tokens: src/milky_frog/tokens/base.py and request.py, the estimate of a request.
--   * Budget: src/milky_frog/harness/budget.py, TokenBudget.trim and what it calls.
--   * Context: src/milky_frog/harness/context.py, the messages sent for a state.
--   * Compaction: src/milky_frog/harness/compaction.py, the cut of the transcript, and the automatic
--     and the manual proposal.
--   * Registry: src/milky_frog/harness/tools/registry.py, the Tools of a session.
--   * Policy: src/milky_frog/core/session_tool_policy.py, the decision on a Tool call; Policy.History
--     compares the object after any sequence of operations with a description of that sequence.
--   * Snapshot: src/milky_frog/checkpoint/snapshot.py, a state as a snapshot and back, with
--     the snapshots inside it in Snapshot.Nested.
--   * Checkpoint: src/milky_frog/checkpoint/sqlite.py, the table of Runs with one function for each
--     SQL statement, and in Checkpoint.Facade src/milky_frog/core/runtime/checkpoint.py and the
--     attachment of src/milky_frog/core/controller.py.
--   * Events: src/milky_frog/events/events.py, the signals; Events.Hub is events/hub.py, Events.Emitter
--     events/emitter.py, Events.ToolStep events/tool_step.py and core/runtime/execute_tool.py, and
--     Events.Loop events/loop.py, from the model's stream (Model) and a batch of Tool calls (Batch)
--     to one turn (Turn) and the whole of AgentLoop.advance (Loop).
--   * Approvals: src/milky_frog/harness/harness.py, _apply_approvals: the verdicts of the user are
--     carried out before the loop goes on.
--   * Handlers: src/milky_frog/handlers/checkpoint.py, the Handler that writes the checkpoints.
--   * Harness: src/milky_frog/harness/harness.py, the entry points of AgentHarness: run, resume,
--     respond_approval and respond_approvals, each prepared under the claim of its Run and handed to
--     the loop. Harness.Host has its collaborators and the states that it prepares; Harness.Durable,
--     Resumed, Entry, Claimed and Saved follow what is stored.
--   * Foreground: src/milky_frog/core/runtime/foreground.py, the Run in the foreground of a session,
--     its busy flag, its cancellation and its id, over the Harness.
--   * ViewModels.Approval: src/milky_frog/tui/viewmodels/approval_vm.py, the prompt that collects the
--     user's verdicts and hands them to the session; TypedText reads what is typed.
--   * Models: src/milky_frog/models/openai.py, how the chunks of a stream become deltas and a
--     response, which the loop consumes, with the payload of a message (Payload) and the client that
--     the model holds (Client); Models.Retry is src/milky_frog/models/retry.py.
--   * Shutdown: src/milky_frog/core/shutdown.py, the teardown of a session.
--   * Prelude: lists, texts, dictionaries and Boolean tests over the native numbers.
--
-- How the parts interact: the loop assembles a request from the state (Context), lets the Handlers
-- propose a compaction (Events.Hub, Compaction), trims it (Budget), streams the model's response,
-- appends it (Transcript), asks the policy about each call (Policy), runs the calls that need no
-- approval (Events.ToolStep, Registry), and broadcasts every step. An effect is a function on a
-- World: the signals broadcast so far, and a type of the outside world that stays a parameter. What
-- may raise returns an Attempt. In the loop, what leaves its body carries the value that the local
-- variable `state` had, which is what its `except` clauses read. The Harness joins the loop, the hub
-- with its Handlers and the store, and a foreground Run joins the Harness and the session.
--
-- Parameters, since their code is not part of this repository or is text and input only: what counts
-- the tokens of a text, json.dumps, the JSON codec of pydantic (with its round trip as a law), the
-- text of the system prompt, the chunks that a model streams, what a Tool does with its arguments,
-- the resolution of a path, whether the lock of a Run is free, whether a Sandbox can be built, the
-- configuration of a project, the clock, Python's str and text methods, and which of two asyncio
-- tasks ends first.
--
-- Fuel: only the `while` of AgentLoop.advance runs on fuel. Each turn that goes on adds one response
-- of the model, so one unit more than the responses that the limit leaves is enough. A Run without
-- a limit (max_calls of 0, or negative in the source, as in every interactive session) has no such
-- bound and may go on for ever. The Harness and the foreground pass the fuel on. The attempts of
-- RetryingModel are counted down, as its range does.
--
-- Not modelled: the Tools of a batch run one after another here, while the source starts them
-- together; the cancellation of the asyncio task of a Run while it waits for a batch of Tools; the
-- deep copies made for Handlers; what a user does to a session while a Run is awaited; the terminal
-- and text interfaces beside the approval prompt, the sandboxes, the MCP client, worktrees, tracing
-- and evaluation scripts, which are input and output; the advisory file lock of a claim.
pub mod Prelude
pub mod Domain
pub mod Transcript
pub mod Tokens
pub mod Budget
pub mod Context
pub mod Compaction
pub mod Registry
pub mod Policy
pub mod Snapshot
pub mod Checkpoint
pub mod Approvals
pub mod Events
pub mod Foreground
pub mod Handlers
pub mod Harness
pub mod Models
pub mod Shutdown
pub mod ViewModels
