-- ===== src/LanggraphAgent/ApprovalStore/Approvals.antt =====
-- The rows of approvals in langgraph_agent/checkpoints/sqlite_checkpointer.py: at most one waits for a
-- decision at each node of a run.
use ops_incident_collector.Prelude.{
  ℕ, String, Bool, true, false, ◌&&◌, Option, none, some, List, [], ◌∷◌, map, keep, ltb, ◌===◌, ◌≡◌,
  refl, All, Distinct, Distinct-snoc, if◌then◌else◌,
}
use ops_incident_collector.Core.Json.{Value}
use ops_incident_collector.LanggraphAgent.RunStore.{GraphApproval, GraphRunStore}
use ops_incident_collector.LanggraphAgent.ApprovalStore.{
  awaits, latest_approval, ensured, new_approval, ensure_approval, decided, decide_approval,
}

-- Two rows that wait for a decision at one node of a run.
unfoldable pub both_await : GraphApproval → GraphApproval → Bool
both_await a b = (b.status === "pending") && awaits b.run_id b.node_name a

abbrev pub HasOneRequest : GraphRunStore → Type 0
HasOneRequest s = Distinct both_await s.graph_approvals

latest_approval-some :
    (a : GraphApproval) (rows : List GraphApproval)
    → (b : GraphApproval) × (latest_approval (a ∷ rows) ≡ some b)
unfolding latest_approval
latest_approval-some a rows = by (latest_approval rows)
  where
    pick :
        (c : Bool) (b : GraphApproval)
        → (d : GraphApproval) × ((if c then some b else some a) ≡ some d)
    pick true b = (b, refl)
    pick false b = (a, refl)

    by :
        (o : Option GraphApproval)
        → (b : GraphApproval) × ((elim o as (λ x. Option GraphApproval) [
          | none ↦ some a
          | some b ↦ if ltb a.created_at b.created_at then some b else some a
        ])
            ≡ some b)
    by none = (a, refl)
    by (some b) = pick (ltb a.created_at b.created_at) b

-- No latest row is found only where no row is kept.
none-All :
    (test : GraphApproval → Bool) (rows : List GraphApproval)
    → latest_approval (keep test rows) ≡ none
    → All (λ a. test a ≡ false) rows
none-All test [] h = tt
none-All test (a ∷ rows) h = by (test a) refl h (none-All test rows)
  where
    by :
        (b : Bool)
        → test a ≡ b
        → latest_approval (if b then a ∷ keep test rows else keep test rows) ≡ none
        → (latest_approval (keep test rows) ≡ none → All (λ c. test c ≡ false) rows)
        → All (λ c. test c ≡ false) (a ∷ rows)
    by true e h rest = absurd (cc ((latest_approval-some a (keep test rows)).1))
    by false e h rest = (e, rest h)

module _ (now : ℕ) (id run_id graph_name node_name approval_type : String) (request : Value) where
  abbrev fresh : GraphApproval
  fresh = new_approval now id run_id graph_name node_name approval_type request

  ensured-HasOneRequest :
      (s : GraphRunStore) (found : Option GraphApproval)
      → latest_approval (keep (awaits run_id node_name) s.graph_approvals) ≡ found
      → HasOneRequest s
      → HasOneRequest (ensured found fresh s).1
  unfolding both_await
  ensured-HasOneRequest s none e h =
      Distinct-snoc both_await s.graph_approvals fresh
        (none-All (awaits run_id node_name) s.graph_approvals e) h
  ensured-HasOneRequest s (some a) e h = h

  pub ensure_approval-HasOneRequest :
      (s : GraphRunStore)
      → HasOneRequest s
      → HasOneRequest (ensure_approval now id run_id graph_name node_name approval_type request s).1
  unfolding ensure_approval
  ensure_approval-HasOneRequest s h = ensured-HasOneRequest s _ refl h

-- A decision takes rows away from those that wait.
module _ (now : ℕ) (i : String) (approved : Bool) (response : Value) where
  abbrev settled : GraphApproval → GraphApproval
  settled a = if a.approval_id === i then decided now approved response a else a

  settled-both :
      (a b : GraphApproval) → both_await a b ≡ false → both_await (settled a) (settled b) ≡ false
  unfolding both_await awaits
  settled-both a b h = by (a.approval_id === i) (b.approval_id === i) approved
    where
      none_of : (x y z : Bool) → x && (y && z && false) ≡ false
      none_of false y z = refl
      none_of true false z = refl
      none_of true true false = refl
      none_of true true true = refl

      by :
          (in_a in_b ap : Bool)
          → both_await
              (if in_a then decided now ap response a else a)
              (if in_b then decided now ap response b else b)
            ≡ false
      by false false ap = h
      by in_a true true = refl
      by in_a true false = refl
      by true false true =
          none_of (b.status === "pending") (a.run_id === b.run_id) (a.node_name === b.node_name)
      by true false false =
          none_of (b.status === "pending") (a.run_id === b.run_id) (a.node_name === b.node_name)

  settled-All :
      (a : GraphApproval) (rows : List GraphApproval)
      → All (λ b. both_await a b ≡ false) rows
      → All (λ b. both_await (settled a) b ≡ false) (map settled rows)
  settled-All a [] h = tt
  settled-All a (b ∷ rows) h = (settled-both a b h.0, settled-All a rows h.1)

  settled-Distinct :
      (rows : List GraphApproval)
      → Distinct both_await rows
      → Distinct both_await (map settled rows)
  settled-Distinct [] h = tt
  settled-Distinct (a ∷ rows) h = (settled-All a rows h.0, settled-Distinct rows h.1)

  pub decide_approval-HasOneRequest :
      (s : GraphRunStore)
      → HasOneRequest s
      → HasOneRequest (decide_approval now i approved response s).1
  unfolding decide_approval
  decide_approval-HasOneRequest s h = settled-Distinct s.graph_approvals h

pub data ApprovalOperation : Type 0 where
  ensure :
      (id run_id graph_name node_name approval_type : String)
      → (request : Value) → ApprovalOperation
  decide : (id : String) → (approved : Bool) → (response : Value) → ApprovalOperation

abbrev pub perform : ℕ → ApprovalOperation → GraphRunStore → GraphRunStore
perform now (ensure i r g n t request) s = (ensure_approval now i r g n t request s).1
perform now (decide i approved response) s = (decide_approval now i approved response s).1

-- Operations, each with the reading of the clock that it makes.
abbrev pub perform_all : List (ℕ × ApprovalOperation) → GraphRunStore → GraphRunStore
perform_all [] s = s
perform_all ((now, o) ∷ rest) s = perform_all rest (perform now o s)

-- Whatever approvals are asked for and decided, from a store with at most one open request at each
-- node of a run there comes such a store.
pub perform_all-HasOneRequest :
    (operations : List (ℕ × ApprovalOperation)) (s : GraphRunStore)
    → HasOneRequest s
    → HasOneRequest (perform_all operations s)
perform_all-HasOneRequest [] s h = h
perform_all-HasOneRequest ((now, ensure i r g n t request) ∷ rest) s h =
    perform_all-HasOneRequest rest (ensure_approval now i r g n t request s).1
      (ensure_approval-HasOneRequest now i r g n t request s h)
perform_all-HasOneRequest ((now, decide i approved response) ∷ rest) s h =
    perform_all-HasOneRequest rest (decide_approval now i approved response s).1
      (decide_approval-HasOneRequest now i approved response s h)
