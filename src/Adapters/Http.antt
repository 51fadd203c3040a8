-- ===== src/Adapters/Http.antt =====
-- What the collector sees of the network and of its database during a run: the requests that it has
-- sent, the state database, and the clock. Core and httpx are a parameter: what they answer may
-- depend on all requests before. Time passes in requests only.
use ops_incident_collector.Prelude.{
  ℕ, String, Bool, true, false, ◌&&◌, Option, none, some, List, [], ◌∷◌, ◌++◌, ◌+◌, ltb, leb, ◌==◌,
  Action, Result, ok, raise, request_error, http_status_error, value_error, missing_batch_endpoint,
  Exc, any, Dict, truthy, ◌||◌, if◌then◌else◌,
}
use ops_incident_collector.Core.Json.{
  Value, null, boolean, number, text, array, object, nil, cons, end, field, get_field,
}
use ops_incident_collector.State.Store.{SqliteStore}

pub data Method : Type 0 where
  get_method post_method patch_method : Method

pub record Request : Type 0 where
  pub method : Method
  pub url : String
  pub body : Value

pub record Response : Type 0 where
  pub status_code : ℕ
  -- `response.json()`, which may fail.
  pub json : Option Value

-- `httpx.RequestError`, or a response.
pub data Reply : Type 0 where
  unreachable : String → Reply
  answered : Response → Reply

-- core_contracts.py
pub record CoreCapabilities : Type 0 where
  pub features : Dict Bool
  pub limits : Dict ℕ
  pub endpoints : Dict String

pub record Service : Type 0 where
  pub reply : List Request → Request → Reply
  pub elapsed : List Request → Request → ℕ
  -- `CoreCapabilities.model_validate`
  pub validate_capabilities : Value → Option CoreCapabilities

pub record World : Type 0 where
  pub store : SqliteStore
  pub sent : List Request
  pub clock : ℕ

abbrev pub answer : Reply → Result Response
answer (unreachable message) = raise (request_error message)
answer (answered r) = ok r

-- `response.raise_for_status()` of httpx: a status that is no success raises.
unfoldable pub is_success : ℕ → Bool
is_success status = leb 200 status && ltb status 300

-- What stands there, or a `ValueError`.
abbrev pub parsed {ℓ} : {A : Type ℓ} → String → Option A → Result A
parsed message none = raise (value_error message)
parsed message (some a) = ok a

abbrev pub checked : Bool → Response → Result Value
checked true r = parsed "not JSON" r.json
checked false r = raise (http_status_error r.status_code)

-- `response.raise_for_status(); return response.json()`
abbrev pub json_of : Response → Result Value
json_of r = checked (is_success r.status_code) r

module _ (service : Service) where
  unfoldable pub send : Method → String → Value → Action World Response
  send method url body w =
      let request : Request = record { method = method; url = url; body = body } in
      (
        answer (service.reply w.sent request),
        record w {
          sent = w.sent ++ request ∷ [];
          clock = w.clock + service.elapsed w.sent request;
        },
      )

-- adapters/core_client.py: `is_retryable_api_error`
unfoldable pub is_retryable_api_error : Exc → Bool
is_retryable_api_error missing_batch_endpoint = false
is_retryable_api_error (request_error message) = true
is_retryable_api_error (http_status_error status) =
    any (λ s. s == status) (408 ∷ 409 ∷ 425 ∷ 429 ∷ []) || leb 500 status
is_retryable_api_error _ = false

-- The truth value of a JSON value.
abbrev pub truthy_value : Value → Bool
truthy_value null = false
truthy_value (boolean b) = b
truthy_value (number n) = ltb 0 n
truthy_value (text s) = truthy s
truthy_value (array nil) = false
truthy_value (array (cons v vs)) = true
truthy_value (object end) = false
truthy_value (object (field k v fs)) = true

-- `data.get(key)` where it is read as a text if it is true; another value that is true is refused.
abbrev pub text_field : Option Value → Result (Option String)
text_field none = ok none
text_field (some (text s)) = ok (if truthy s then some s else none)
text_field (some v) = if truthy_value v then raise (value_error "not a text") else ok none

unfoldable pub get_text : String → Value → Result (Option String)
unfolding get_field
get_text key (object fs) = text_field (get_field key fs)
get_text key v = raise (value_error "not an object")
