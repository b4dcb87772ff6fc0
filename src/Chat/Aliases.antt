-- ===== src/Chat/Aliases.antt =====
-- `_restore_aliased_tool_arguments` of free-claude-code/providers/openai_compat.py: the argument
-- names of a tool that a provider had renamed are put back, at every depth.
use vega_claude.Prelude.{String, Option, none, some, Dict, get, string_eq}
use vega_claude.Json.{
  Value, null, boolean, number, string, array, object, Items, nil, item, Fields, end, field, Loaded,
  loaded, malformed, out_of_range, too_deep, Json, put_field,
}
use vega_claude.Sse.Generator.{Exception, value_error, recursion_error}

-- aliases.get(key, key)
abbrev alias_or : String → Option String → String
alias_or key none = key
alias_or key (some name) = name

unfoldable mutual
  -- `_restore_aliased_tool_argument_value`; a later key replaces an equal earlier one.
  pub restore_value : Dict String String → Value → Value
  restore_value aliases null = null
  restore_value aliases (boolean b) = boolean b
  restore_value aliases (number n) = number n
  restore_value aliases (string s) = string s
  restore_value aliases (array items) = array (restore_items aliases items)
  restore_value aliases (object d) = object (restore_fields aliases end d)

  pub restore_items : Dict String String → Items → Items
  restore_items aliases nil = nil
  restore_items aliases (item v items) =
      item (restore_value aliases v) (restore_items aliases items)

  pub restore_fields : Dict String String → Fields → Fields → Fields
  restore_fields aliases done end = done
  restore_fields aliases done (field key v d) =
      restore_fields aliases
        (put_field (alias_or key (get key aliases)) (restore_value aliases v) done) d

-- The text, none while it is no JSON yet, or an exception that is not caught.
pub data Restored : Type 0 where
  restoring : String → Restored
  not_json : Restored
  fails : Exception → Restored

module _ (json : Json) where
  unfoldable pub restored : Dict String String → String → Loaded → Restored
  unfolding restore_value
  restored aliases argument_json malformed = not_json
  restored aliases argument_json out_of_range = fails value_error
  restored aliases argument_json too_deep = fails recursion_error
  restored aliases argument_json (loaded (object d)) =
      elim (json.dumps (restore_value aliases (object d))) [
        | none ↦ fails recursion_error
        | some t ↦ restoring t
      ]
  restored aliases argument_json (loaded parsed) = restoring argument_json

  -- Only a `JSONDecodeError` is caught.
  unfoldable pub restore_aliased_tool_arguments : Dict String String → String → Restored
  unfolding restored
  restore_aliased_tool_arguments aliases argument_json =
      restored aliases argument_json (json.loads argument_json)
