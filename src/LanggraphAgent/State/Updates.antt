-- ===== src/LanggraphAgent/State/Updates.antt =====
-- What is found under a key of an updated state of langgraph_agent.
use ops_incident_collector.Prelude.{
  String, Bool, true, false, Option, none, some, ◌===◌, ◌≡◌, refl, ◌∙◌, arith, eq_iff,
  if◌then◌else◌,
}
use ops_incident_collector.Core.Json.{Value, Fields, end, field, get_field, put_field}
use ops_incident_collector.LanggraphAgent.State.{update}

abbrev pub or_else : Option Value → Option Value → Option Value
or_else none b = b
or_else (some a) b = some a

pub get_field-put_field :
    (key k : String) (v : Value) (fs : Fields)
    → get_field key (put_field k v fs) ≡ (if k === key then some v else get_field key fs)
unfolding get_field put_field
get_field-put_field key k v end = refl
get_field-put_field key k v (field j w fs) =
    ground (arith, eq_iff k key, eq_iff j k, eq_iff j key, get_field-put_field key k v fs)

pub get_field-update :
    (key : String) (state delta : Fields)
    → get_field key (update state delta) ≡ or_else (get_field key delta) (get_field key state)
unfolding update get_field
get_field-update key state end = refl
get_field-update key state (field k v delta) =
    get_field-put_field key k v (update state delta)
    ∙ by (k === key) (get_field-update key state delta)
  where
    by :
        (b : Bool)
        → get_field key (update state delta) ≡ or_else (get_field key delta) (get_field key state)
        → (if b then some v else get_field key (update state delta))
          ≡ or_else (if b then some v else get_field key delta) (get_field key state)
    by true ih = refl
    by false ih = ih
