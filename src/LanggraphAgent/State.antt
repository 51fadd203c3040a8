-- ===== src/LanggraphAgent/State.antt =====
-- A graph's state, which is a `dict`, as the nodes of langgraph_agent read and update it. A list of
-- messages holds texts, and a part of the state that is a report is an object or is missing.
pub mod Updates
use ops_incident_collector.Prelude.{
  ℕ, String, Bool, true, false, not, Option, none, some, List, [], ◌∷◌, ◌===◌, truthy, one_of,
  if◌then◌else◌,
}
use ops_incident_collector.Core.Json.{
  Value, Items, Fields, null, text, number, array, object, nil, cons, end, field, get_field,
  put_field,
}
use ops_incident_collector.Adapters.Http.{truthy_value}

-- `state.update(delta)`: the keys of a `dict` differ, so the order in which they are put is free, and
-- here the last one is put first.
unfoldable pub update : Fields → Fields → Fields
unfolding put_field
update state end = state
update state (field k v delta) = put_field k v (update state delta)

-- The truth value of `state.get(key, default)`.
unfoldable pub flag : String → Bool → Fields → Bool
unfolding get_field
flag key default state = elim (get_field key state) [ none ↦ default | some v ↦ truthy_value v ]

abbrev pub text_in : List String → Option Value → Bool
text_in names (some (text t)) = one_of names t
text_in names _ = false

-- `state.get(key) in names`
unfoldable pub is_in : String → List String → Fields → Bool
unfolding get_field
is_in key names state = text_in names (get_field key state)

abbrev pub text_or : String → Option Value → String
text_or default none = default
text_or default (some (text t)) = t
text_or default (some v) = default

-- `state.get(key, default)` of a text.
unfoldable pub get_text_or : String → String → Fields → String
unfolding get_field
get_text_or key default state = text_or default (get_field key state)

abbrev true_text : Option Value → Option String
true_text (some (text t)) = if truthy t then some t else none
true_text _ = none

-- A text that is true, such as `Path(output) if output else None` takes.
unfoldable pub get_true_text : String → Fields → Option String
unfolding get_field
get_true_text key state = true_text (get_field key state)

-- `state.get(key)`
unfoldable pub get_or_null : String → Fields → Value
unfolding get_field
get_or_null key state = elim (get_field key state) [ none ↦ null | some v ↦ v ]

abbrev object_or_empty : Option Value → Fields
object_or_empty (some (object fs)) = fs
object_or_empty _ = end

-- `state.get(key) or {}`
unfoldable pub get_object : String → Fields → Fields
unfolding get_field
get_object key state = object_or_empty (get_field key state)

abbrev items_or_empty : Option Value → Items
items_or_empty (some (array vs)) = vs
items_or_empty _ = nil

-- `state.get(key, [])`
unfoldable pub get_items : String → Fields → Items
unfolding get_field
get_items key state = items_or_empty (get_field key state)

unfoldable pub append_item : Items → Value → Items
append_item nil v = cons v nil
append_item (cons w vs) v = cons w (append_item vs v)

abbrev pub items_of : List String → Items
items_of [] = nil
items_of (s ∷ ss) = cons (text s) (items_of ss)

abbrev pub texts_of : Items → List String
texts_of nil = []
texts_of (cons (text s) vs) = s ∷ texts_of vs
texts_of (cons v vs) = texts_of vs

-- `[*state.get("errors", []), error]`
abbrev pub errors_with : String → Fields → Value
errors_with error state = array (append_item (get_items "errors" state) (text error))

-- The fields of a state that was stored.
abbrev pub fields_in : Value → Fields
fields_in (object fs) = fs
fields_in v = end
