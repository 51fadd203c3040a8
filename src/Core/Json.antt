-- ===== src/Core/Json.antt =====
-- JSON values: the `dict[str, Any]` of metadata, payloads and graph states, and what `json.dumps`
-- writes for them.
use ops_incident_collector.Prelude.{ℕ, String, Bool, Option, none, some, ◌===◌, if◌then◌else◌}

mutual
  pub data Value : Type 0 where
    null : Value
    boolean : Bool → Value
    number : ℕ → Value
    text : String → Value
    array : Items → Value
    object : Fields → Value

  pub data Items : Type 0 where
    nil : Items
    cons : Value → Items → Items

  pub data Fields : Type 0 where
    end : Fields
    field : String → Value → Fields → Fields

-- `d.get(key)` on the fields of an object.
unfoldable pub get_field : String → Fields → Option Value
get_field key end = none
get_field key (field k v fs) = if k === key then some v else get_field key fs

abbrev pub text_or_null : Option String → Value
text_or_null none = null
text_or_null (some s) = text s

abbrev pub number_or_null : Option ℕ → Value
number_or_null none = null
number_or_null (some n) = number n

-- `metadata[key] = value`
unfoldable pub put_field : String → Value → Fields → Fields
put_field key v end = field key v end
put_field key v (field k w fs) = if k === key then field k v fs else field k w (put_field key v fs)

-- `a | b`: the entries of `b` go over those of `a`.
unfoldable pub merge : Fields → Fields → Fields
unfolding put_field
merge a end = a
merge a (field k v fs) = merge (put_field k v a) fs
