-- ===== src/Models.antt =====
-- models/openai.py: the chunks of a chat-completions stream, put together to one response. The
-- client that opens the stream is a third party's: what arrives from it is a list.
pub mod Fragments
pub mod Stream
pub mod Retry
pub mod Payload
pub mod Client
mod Examples
use milky_frog_lite.Prelude.{
  if◌then◌else◌, ◌++◌, ◌==◌, str_eq, Option, ℕ, String, List, [], fstring, ◌∷◌, some, none, ltb,
  map,
}
use milky_frog_lite.Domain.Json.{JsonObject}
use milky_frog_lite.Domain.Usage.{TokenUsage, no_usage}
use milky_frog_lite.Domain.Message.{ToolCall}
use milky_frog_lite.Domain.Run.{ModelResponse}
use milky_frog_lite.Events.{Raised, error, Attempt, returned, raised}
use milky_frog_lite.Events.Loop.Model.{
  Chunk, text_delta, reasoning_delta, stream_done, stream_raises,
}

-- What a stream brings: the fields that are read of a chunk. A text that is missing is empty, as
-- the source tests both at once.
pub record CallDelta : Type 0 where
  pub index : ℕ
  pub id : String
  pub name : String
  pub arguments : String

pub record Delta : Type 0 where
  pub reasoning_content : String
  pub content : String
  pub tool_calls : List CallDelta

pub record CompletionUsage : Type 0 where
  pub prompt_tokens : Option ℕ
  pub completion_tokens : Option ℕ
  pub cached_tokens : Option ℕ
  pub reasoning_tokens : Option ℕ

pub record CompletionChunk : Type 0 where
  pub usage : Option CompletionUsage
  pub choices : List Delta

-- A chunk, or the exception of the client, of the connection or of the idle deadline.
pub data Received : Type 0 where
  arrives : CompletionChunk → Received
  breaks : Raised → Received

-- `value or 0`
abbrev pub or_zero : Option ℕ → ℕ
or_zero none = 0
or_zero (some n) = n

unfoldable pub token_usage : CompletionUsage → TokenUsage
token_usage u = record {
  input_tokens = or_zero u.prompt_tokens;
  output_tokens = or_zero u.completion_tokens;
  cached_tokens = or_zero u.cached_tokens;
  reasoning_tokens = or_zero u.reasoning_tokens;
}

-- `_ToolFragment`
pub record ToolFragment : Type 0 where
  pub id : String
  pub name : String
  pub arguments : String

abbrev pub new_fragment : ToolFragment
new_fragment = record { id = ""; name = ""; arguments = "" }

-- `if new: old = new`
abbrev pub replaced : String → String → String
replaced old new = if str_eq new "" then old else new

unfoldable pub extended : ToolFragment → CallDelta → ToolFragment
extended f d = record {
  id = replaced f.id d.id;
  name = replaced f.name d.name;
  arguments = fstring (f.arguments ∷ d.arguments ∷ []);
}

-- `tool_fragments`, keyed by the index of the call, in order of insertion; `setdefault` and the
-- three updates of the fragment.
unfoldable pub merge : CallDelta → List (ℕ × ToolFragment) → List (ℕ × ToolFragment)
unfolding extended
merge d [] = (d.index, extended new_fragment d) ∷ []
merge d ((i, f) ∷ fs) =
    let rest = merge d fs in if i == d.index then (i, extended f d) ∷ fs else (i, f) ∷ rest

unfoldable pub merge_all : List CallDelta → List (ℕ × ToolFragment) → List (ℕ × ToolFragment)
unfolding merge
merge_all [] fs = fs
merge_all (d ∷ ds) fs = merge_all ds (merge d fs)

-- The local variables of `stream`.
pub record Gathered : Type 0 where
  pub content_parts : List String
  pub reasoning_parts : List String
  pub tool_fragments : List (ℕ × ToolFragment)
  pub usage : TokenUsage

abbrev pub nothing_gathered : Gathered
nothing_gathered = record {
  content_parts = [];
  reasoning_parts = [];
  tool_fragments = [];
  usage = no_usage;
}

-- `if part: parts.append(part)`
abbrev pub part_of : String → List String
part_of part = if str_eq part "" then [] else part ∷ []

abbrev pub usage_or : Option CompletionUsage → TokenUsage → TokenUsage
usage_or none usage = usage
usage_or (some u) usage = token_usage u

unfoldable pub gather_delta : List Delta → Gathered → Gathered
unfolding merge_all
gather_delta [] g = g
gather_delta (d ∷ _) g = record g {
  content_parts = g.content_parts ++ part_of d.content;
  reasoning_parts = g.reasoning_parts ++ part_of d.reasoning_content;
  tool_fragments = merge_all d.tool_calls g.tool_fragments;
}

-- What one chunk adds to the variables.
unfoldable pub gathered : CompletionChunk → Gathered → Gathered
unfolding gather_delta token_usage
gathered c g = gather_delta c.choices (record g { usage = usage_or c.usage g.usage })

-- What one chunk yields.
unfoldable pub yielded : List Delta → List Chunk
yielded [] = []
yielded (d ∷ _) =
    map reasoning_delta (part_of d.reasoning_content) ++ map text_delta (part_of d.content)

-- `sorted(tool_fragments.items())`: the indices differ, so they alone decide.
unfoldable pub insert_fragment :
    ℕ × ToolFragment → List (ℕ × ToolFragment) → List (ℕ × ToolFragment)
insert_fragment f [] = f ∷ []
insert_fragment f (g ∷ gs) =
    let rest = insert_fragment f gs in if ltb g.0 f.0 then g ∷ rest else f ∷ g ∷ gs

unfoldable pub by_index : List (ℕ × ToolFragment) → List (ℕ × ToolFragment)
unfolding insert_fragment
by_index [] = []
by_index (f ∷ fs) = insert_fragment f (by_index fs)

-- `json.loads`: an exception, or a value, which is an object or not.
pub record JsonText : Type 0 where
  pub loads : String → Attempt (Option JsonObject)

module _ (json : JsonText) (model : String) where
  must_be_object : Attempt (Option JsonObject) → Attempt JsonObject
  must_be_object (returned (some o)) = returned o
  must_be_object (returned none) =
      raised (error "ValueError" "model tool-call arguments must be a JSON object" none)
  must_be_object (raised e) = raised e

  unfoldable pub parse_arguments : String → Attempt JsonObject
  unfolding must_be_object
  parse_arguments value = must_be_object (json.loads (if str_eq value "" then "{}" else value))

  call_with : ToolFragment → Attempt JsonObject → Attempt (List ToolCall) → Attempt (List ToolCall)
  call_with f (raised e) rest = raised e
  call_with f (returned arguments) (raised e) = raised e
  call_with f (returned arguments) (returned calls) =
      returned (record { id = f.id; name = f.name; arguments = arguments } ∷ calls)

  unfoldable pub tool_calls : List (ℕ × ToolFragment) → Attempt (List ToolCall)
  unfolding call_with parse_arguments
  tool_calls [] = returned []
  tool_calls ((i, f) ∷ fs) = call_with f (parse_arguments f.arguments) (tool_calls fs)

  unfoldable pub response_of : Gathered → Attempt (List ToolCall) → Chunk
  response_of g (raised e) = stream_raises e
  response_of g (returned calls) = stream_done (record {
    content = fstring g.content_parts;
    tool_calls = calls;
    usage = g.usage;
    model = model;
    reasoning = fstring g.reasoning_parts;
  })

  unfoldable pub stream_from : Gathered → List Received → List Chunk
  unfolding gathered yielded response_of tool_calls by_index
  stream_from g [] = response_of g (tool_calls (by_index g.tool_fragments)) ∷ []
  stream_from g (breaks e ∷ received) = stream_raises e ∷ []
  stream_from g (arrives c ∷ received) = yielded c.choices ++ stream_from (gathered c g) received

  -- `stream`, once the client has opened it
  unfoldable pub stream : List Received → List Chunk
  unfolding stream_from
  stream received = stream_from nothing_gathered received
