-- ===== src/Context.antt =====
-- harness/context.py: the messages sent to the model for a state. The rendering of the system
-- prompt (the date, the host's files) is a parameter.
use milky_frog_lite.Prelude.{String, List, [], ◌∷◌, ◌++◌, Option, none, some, drop, fstring}
use milky_frog_lite.Domain.Message.{Message, system, user, plain_message}
use milky_frog_lite.Domain.Run.{RunState, CompactionState, FilePath}

-- The object: its loader, if it has one, and what `system_prompt` renders.
pub record ContextManager : Type 0 where
  pub context_loader : Option (FilePath → Option String)
  pub system_prompt : FilePath → List String → String

abbrev pub summary_message : CompactionState → Message
summary_message c =
    plain_message user (
      fstring
        ("Summary of the earlier conversation (older messages omitted):\n\n" ∷ c.summary ∷ []))

body_of : Option CompactionState → List Message → List Message
body_of none messages = messages
body_of (some c) messages = summary_message c ∷ drop c.through_index messages

unfoldable pub body : RunState → List Message
unfolding body_of
body state = body_of state.compaction state.messages

option_list : Option String → List String
option_list none = []
option_list (some s) = s ∷ []

loaded_section : Option (FilePath → Option String) → FilePath → List String
unfolding option_list
loaded_section none workspace = []
loaded_section (some load) workspace = option_list (load workspace)

unfoldable pub system_message : ContextManager → RunState → Message
unfolding loaded_section
system_message context state = plain_message system (
    context.system_prompt state.workspace
      (loaded_section context.context_loader state.workspace ++ state.run_extra))

unfoldable pub assemble : ContextManager → RunState → List Message
assemble context state = system_message context state ∷ body state
