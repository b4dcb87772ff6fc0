-- ===== src/Json.antt =====
-- JSON values as Python objects, and the `json` module as a parameter.
use vega_claude.Prelude.{Bool, String, Option, none, some, string_eq, ◌==◌, if◌then◌else◌}

mutual
  pub data Value : Type 0 where
    null : Value
    boolean : Bool → Value
    number : String → Value
    string : String → Value
    array : Items → Value
    object : Fields → Value

  pub data Items : Type 0 where
    nil : Items
    item : Value → Items → Items

  pub data Fields : Type 0 where
    end : Fields
    field : String → Value → Fields → Fields

-- What `json.loads` ends in: a value, a `JSONDecodeError`, another `ValueError` (an integer with too
-- many digits), or a `RecursionError` (too deep a nesting).
pub data Loaded : Type 0 where
  loaded : Value → Loaded
  malformed : Loaded
  out_of_range : Loaded
  too_deep : Loaded

-- The value, if one was read.
abbrev pub value_of : Loaded → Option Value
value_of (loaded v) = some v
value_of malformed = none
value_of out_of_range = none
value_of too_deep = none

pub record Json : Type 0 where
  pub loads : String → Loaded
  -- `none`: a `RecursionError`, also of the source's own recursion over the value.
  pub dumps : Value → Option String
  -- `json.dumps` of the input of a tool call that was found in the text; it is taken to raise nothing.
  pub dumps_input : Value → String

-- d.get(key)
abbrev pub get_field : String → Fields → Option Value
get_field key end = none
get_field key (field k v d) = if k == key then some v else get_field key d

-- d[key] = value
abbrev pub put_field : String → Value → Fields → Fields
put_field key value end = field key value end
put_field key value (field k v d) =
    let rest = put_field key value d in if k == key then field k value d else field k v rest
