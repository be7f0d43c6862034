-- ===== src/Domain/Json.antt =====
-- JSON values, the `JsonValue` of pydantic that tool-call arguments are made of. A number is kept
-- as its literal: the runtime never computes with one.
use milky_frog_lite.Prelude.{Bool, String, Option, none, some, str_eq, if◌then◌else◌}

mutual
  pub data JsonValue : Type 0 where
    null : JsonValue
    bool : Bool → JsonValue
    num : String → JsonValue
    str : String → JsonValue
    arr : JsonArray → JsonValue
    obj : JsonObject → JsonValue

  pub data JsonArray : Type 0 where
    nil : JsonArray
    item : JsonValue → JsonArray → JsonArray

  -- a `dict[str, JsonValue]`, in insertion order
  pub data JsonObject : Type 0 where
    empty : JsonObject
    entry : String → JsonValue → JsonObject → JsonObject

-- `arguments.get(key)`
unfoldable pub get : JsonObject → String → Option JsonValue
get empty key = none
get (entry k v o) key = if str_eq k key then some v else get o key
