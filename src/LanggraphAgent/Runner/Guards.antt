-- ===== src/LanggraphAgent/Runner/Guards.antt =====
-- The keys of a state of langgraph_agent that the gate of the approval reads, when no sync is allowed.
use ops_incident_collector.Prelude.{
  and_parts, String, Bool, true, false, not, ◌&&◌, ◌||◌, Option, none, some, List, [], ◌∷◌, any,
  All, ◌===◌, ◌≡◌, refl, ap, ◌∙◌, one_of, if◌then◌else◌,
}
use ops_incident_collector.Core.Json.{Value, Fields, end, field, get_field, put_field}
use ops_incident_collector.Adapters.Http.{truthy_value}
use ops_incident_collector.LanggraphAgent.State.{update, text_in}
use ops_incident_collector.LanggraphAgent.State.Updates.{
  or_else, get_field-put_field, get_field-update,
}
use ops_incident_collector.LanggraphAgent.Nodes.{Agent}
use ops_incident_collector.LanggraphAgent.Session.{GraphSession, take_update}
use ops_incident_collector.LanggraphAgent.Runner.Steps.{TakesSchema, take_update-channels}

-- A key, and what its value has to be.
abbrev pub Guard : Type 0
Guard = String × (Option Value → Bool)

abbrev pub is_false : Option Value → Bool
is_false none = true
is_false (some v) = not (truthy_value v)

abbrev pub is_true : Option Value → Bool
is_true none = true
is_true (some v) = truthy_value v

abbrev pub is_api : Option Value → Bool
is_api none = true
is_api (some v) = text_in ("api" ∷ []) (some v)

-- An upload to Core for which an approval is required and not given.
abbrev pub guards : List Guard
guards =
    ("approved", is_false)
    ∷ ("sync_approved", is_false)
    ∷ ("dry_run", is_false)
    ∷ ("require_approval", is_true)
    ∷ ("sync_required", is_true)
    ∷ ("export_target", is_api)
    ∷ []

abbrev pub Holds : List Guard → Fields → Type 0
Holds gs fs = All (λ g. g.1 (get_field g.0 fs) ≡ true) gs

abbrev pub IsGuarded : Fields → Type 0
IsGuarded fs = Holds guards fs

-- No key of an update is that of a guard.
unfoldable pub is_silent : List Guard → Fields → Bool
is_silent gs end = true
is_silent gs (field k v fs) = not (any (λ g. k === g.0) gs) && is_silent gs fs

and_true : (a b : Bool) → not a && b ≡ true → (a ≡ false) × (b ≡ true)
and_true false b h = (refl, h)
and_true true b h = absurd cc

or_false : (a b : Bool) → a || b ≡ false → (a ≡ false) × (b ≡ false)
or_false false b h = (refl, h)
or_false true b h = absurd cc

silent-get_field :
    (key : String) (test : Option Value → Bool) (gs : List Guard) (fs : Fields)
    → is_silent ((key, test) ∷ gs) fs ≡ true
    → get_field key fs ≡ none
unfolding is_silent get_field
silent-get_field key test gs end h = refl
silent-get_field key test gs (field k v fs) h =
    rw ((or_false (k === key) (any (λ g. k === g.0) gs) (and_true _ _ h).0).0)
      (silent-get_field key test gs fs (and_true _ _ h).1)

silent-tail :
    (g : Guard) (gs : List Guard) (fs : Fields)
    → is_silent (g ∷ gs) fs ≡ true
    → is_silent gs fs ≡ true
unfolding is_silent
silent-tail g gs end h = refl
silent-tail g gs (field k v fs) h =
    rw ((or_false (k === g.0) (any (λ f. k === f.0) gs) (and_true _ _ h).0).1)
      (silent-tail g gs fs (and_true _ _ h).1)

module _ (agent : Agent) (takes : TakesSchema agent.channel_writes)
    (graph_name run_id node_name : String) (schema : List String) (s : GraphSession)
    (delta : Fields) where
  unwritten :
      (key : String)
      → get_field key delta ≡ none
      → get_field key (agent.channel_writes schema delta) ≡ none
  unwritten key h = takes schema delta key ∙ by (one_of schema key)
    where
      by : (b : Bool) → (if b then get_field key delta else none) ≡ none
      by true = h
      by false = refl

  -- A silent update leaves the guards as they are.
  pub take_update-Holds :
      (gs : List Guard)
      → All (λ g. ("approval_request" === g.0) ≡ false) gs
      → is_silent gs delta ≡ true
      → Holds gs s.channels
      → Holds gs
          (take_update agent graph_name run_id node_name
            (agent.channel_writes schema delta)
            s).channels
  take_update-Holds [] other silent h = tt
  take_update-Holds ((key, test) ∷ gs) other silent h = (
    ap test (
          take_update-channels agent graph_name run_id node_name key other.0
            (agent.channel_writes schema delta) s
          ∙ rw (unwritten key (silent-get_field key test gs delta silent)) refl)
        ∙ h.0,
    take_update-Holds gs other.1 (silent-tail (key, test) gs delta silent) h.1,
  )

-- What the channels hold at the start.
pub writes-Holds :
    (writes : List String → Fields → Fields)
    → TakesSchema writes
    → (schema : List String) (state : Fields) (gs : List Guard) → All (λ g. g.1 none ≡ true) gs
    → Holds gs state
    → Holds gs (update end (writes schema state))
unfolding get_field
writes-Holds writes takes schema state [] d h = tt
writes-Holds writes takes schema state ((key, test) ∷ gs) d h = (
  ap test (
        get_field-update key end (writes schema state)
        ∙ ap (λ o. or_else o (get_field key end)) (takes schema state key))
      ∙ by (one_of schema key),
  writes-Holds writes takes schema state gs d.1 h.1,
)
  where
    plain : (o : Option Value) → or_else o none ≡ o
    plain none = refl
    plain (some v) = refl

    by :
        (b : Bool)
        → test (or_else (if b then get_field key state else none) (get_field key end)) ≡ true
    by true = ap test (plain (get_field key state)) ∙ h.0
    by false = d.0

-- Neither the request nor a missing key breaks a guard.
pub guards-other : All (λ g. ("approval_request" === g.0) ≡ false) guards
guards-other = (refl, (refl, (refl, (refl, (refl, (refl, tt))))))

pub guards-none : All (λ g. g.1 none ≡ true) guards
guards-none = (refl, (refl, (refl, (refl, (refl, (refl, tt))))))

-- Whether a value passes the guard of its key.
abbrev pub passes : String → Value → List Guard → Bool
passes k v [] = true
passes k v (g ∷ gs) = (if k === g.0 then g.1 (some v) else true) && passes k v gs

-- A key that is put keeps the guards if it passes that of its name.
pub put_field-Holds :
    (k : String) (v : Value) (fs : Fields) (gs : List Guard)
    → passes k v gs ≡ true
    → Holds gs fs
    → Holds gs (put_field k v fs)
put_field-Holds k v fs [] passed h = tt
put_field-Holds k v fs ((key, test) ∷ gs) passed h = (
  ap test (get_field-put_field key k v fs) ∙ by (k === key) (and_parts _ _ passed).0,
  put_field-Holds k v fs gs (and_parts _ _ passed).1 h.1,
)
  where
    by :
        (b : Bool)
        → (if b then test (some v) else true) ≡ true
        → test (if b then some v else get_field key fs) ≡ true
    by true p = p
    by false p = h.0
