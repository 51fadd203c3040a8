-- ===== src/LanggraphAgent/RunStore/Runs.antt =====
-- The rows of the graph runs in langgraph_agent/checkpoints/sqlite_checkpointer.py, written and read.
use ops_incident_collector.Prelude.{
  ℕ, String, Bool, true, false, Option, none, some, List, [], ◌∷◌, ◌++◌, map, ◌===◌, ◌≡◌, refl, sym,
  ◌∙◌, arith, eq_iff, ap, truthy, if◌then◌else◌,
}
use ops_incident_collector.Core.Json.{
  Value, Fields, null, boolean, number, text, array, object, get_field,
}
use ops_incident_collector.LanggraphAgent.RunStore.{
  GraphRun, GraphRunStore, RunUpdate, create_run, created_run, other_runs, update_run_state,
  updated_run, find_run, get_run, status_of, status_or, sanitize_for_storage,
}
use ops_incident_collector.LanggraphAgent.RunStore.Sanitizing.{IsClean, sanitize_for_storage_lem}

find_run-other :
    (i j : String) (rows : List GraphRun)
    → (i === j) ≡ false
    → find_run j (other_runs i rows) ≡ find_run j rows
unfolding find_run
find_run-other i j [] e = refl
find_run-other i j (r ∷ rows) e =
    ground (arith, eq_iff r.run_id i, eq_iff r.run_id j, eq_iff i j, find_run-other i j rows e)

find_run-gone : (i : String) (rows : List GraphRun) → find_run i (other_runs i rows) ≡ none
unfolding find_run
find_run-gone i [] = refl
find_run-gone i (r ∷ rows) = ground (arith, find_run-gone i rows)

abbrev or_last : Option GraphRun → Option GraphRun → Option GraphRun
or_last none last = last
or_last (some q) last = some q

find_run-append :
    (j : String) (rows : List GraphRun) (r : GraphRun)
    → find_run j (rows ++ r ∷ [])
      ≡ or_last (find_run j rows) (if r.run_id === j then some r else none)
unfolding find_run
find_run-append j [] r = refl
find_run-append j (q ∷ rows) r = by (q.run_id === j) (find_run-append j rows r)
  where
    by :
        (b : Bool)
        → find_run j (rows ++ r ∷ [])
          ≡ or_last (find_run j rows) (if r.run_id === j then some r else none)
        → (if b then some q else find_run j (rows ++ r ∷ []))
          ≡ or_last
              (if b then some q else find_run j rows)
              (if r.run_id === j then some r else none)
    by true ih = refl
    by false ih = ih

pub get_run-create_run :
    (now : ℕ) (g i j : String) (input : Fields) (s : GraphRunStore)
    → get_run j (create_run now g i input s)
      ≡ (if i === j then some (created_run now g i input) else get_run j s)
unfolding get_run create_run
get_run-create_run now g i j input s =
    find_run-append j (other_runs i s.graph_runs) (created_run now g i input) ∙ by (i === j) refl
  where
    kept : (o : Option GraphRun) → or_last o none ≡ o
    kept none = refl
    kept (some q) = refl

    gone : (i === j) ≡ true → find_run j (other_runs i s.graph_runs) ≡ none
    gone e = rw (← ((eq_iff i j).0 e)) (find_run-gone i s.graph_runs)

    by :
        (b : Bool)
        → (i === j) ≡ b
        → or_last
            (find_run j (other_runs i s.graph_runs))
            (if b then some (created_run now g i input) else none)
          ≡ (if b then some (created_run now g i input) else find_run j s.graph_runs)
    by true e = rw (gone e) refl
    by false e = rw (find_run-other i j s.graph_runs e) (kept (find_run j s.graph_runs))

abbrev pub updated : ℕ → Fields → RunUpdate → Option GraphRun → Option GraphRun
updated now state u none = none
updated now state u (some r) = some (updated_run now state u r)

module _ (now : ℕ) (i j : String) (state : Fields) (u : RunUpdate) where
  abbrev touched : GraphRun → GraphRun
  touched r = if r.run_id === i then updated_run now state u r else r

  touched_id :
      (b : Bool) (r : GraphRun) → (if b then updated_run now state u r else r).run_id ≡ r.run_id
  touched_id true r = refl
  touched_id false r = refl

  find_run-update :
      (rows : List GraphRun)
      → find_run j (map touched rows)
        ≡ (if i === j then updated now state u (find_run j rows) else find_run j rows)
  unfolding find_run
  find_run-update [] = by (i === j)
    where
      by : (b : Bool) → none ≡ (if b then updated now state u none else none)
      by true = refl
      by false = refl
  find_run-update (r ∷ rows) =
      rw (touched_id (r.run_id === i) r)
        (by (r.run_id === i) (r.run_id === j) (i === j) refl refl refl (find_run-update rows))
    where
      apart : (r.run_id === i) ≡ false → (r.run_id === j) ≡ true → (i === j) ≡ true → ⊥
      apart ea eb ec =
          cc ((eq_iff r.run_id i).1 ((eq_iff r.run_id j).0 eb ∙ sym ((eq_iff i j).0 ec)))

      clash :
          (a b c : Bool)
          → (r.run_id === i) ≡ a
          → (r.run_id === j) ≡ b
          → (i === j) ≡ c
          → a ≡ true
          → (b ≡ c)
      clash a b c ea eb ec ta = sym eb ∙ rw ((eq_iff r.run_id i).0 (ea ∙ ta)) ec

      by :
          (a b c : Bool)
          → (r.run_id === i) ≡ a
          → (r.run_id === j) ≡ b
          → (i === j) ≡ c
          → find_run j (map touched rows)
            ≡ (if c then updated now state u (find_run j rows) else find_run j rows)
          → (if b
              then some (if a then updated_run now state u r else r)
              else find_run j (map touched rows))
            ≡ (if c
                then updated now state u (if b then some r else find_run j rows)
                else if b
                then some r
                else find_run j rows)
      by true true true ea eb ec ih = refl
      by true true false ea eb ec ih = absurd (cc (clash true true false ea eb ec refl))
      by true false true ea eb ec ih = absurd (cc (clash true false true ea eb ec refl))
      by a false c ea eb ec ih = ih
      by false true true ea eb ec ih = absurd (apart ea eb ec)
      by false true false ea eb ec ih = refl

pub get_run-updated :
    (now : ℕ) (i j : String) (state : Fields) (u : RunUpdate) (s : GraphRunStore)
    → get_run j (update_run_state now i state u s)
      ≡ (if i === j then updated now state u (get_run j s) else get_run j s)
unfolding update_run_state get_run
get_run-updated now i j state u s = find_run-update now i j state u s.graph_runs

-- The first of some texts that is not empty.
abbrev first_filled : (last : String) → List String → String
first_filled last [] = last
first_filled last (s ∷ texts) = if truthy s then s else first_filled last texts

abbrev given : Option String → String
given none = ""
given (some s) = s

abbrev said : Option Value → String
said (some (text s)) = s
said _ = ""

-- The row that is to be found of a run, column by column.
abbrev pub stored :
    (now later : ℕ) → (graph_name run_id : String) → (input state : Fields) → RunUpdate → GraphRun
stored now later graph_name run_id input state u = record {
  run_id = run_id;
  graph_name = graph_name;
  status = first_filled "running" (given u.status ∷ said (get_field "status" state) ∷ []);
  input = sanitize_for_storage (object input);
  state = sanitize_for_storage (object state);
  created_at = now;
  updated_at = later;
  completed_at = if u.completed then some later else none;
  error = u.error;
}

said-status_of : (state : Fields) → status_of "" state ≡ said (get_field "status" state)
unfolding status_of
said-status_of state = by (get_field "status" state)
  where
    by : (o : Option Value) → elim o [ some (text s) ↦ s | _ ↦ "" ] ≡ said o
    by none = refl
    by (some null) = refl
    by (some (boolean b)) = refl
    by (some (number n)) = refl
    by (some (text s)) = refl
    by (some (array vs)) = refl
    by (some (object fs)) = refl

updated_run-stored :
    (now later : ℕ) (g i : String) (input state : Fields) (u : RunUpdate)
    → updated_run later state u (created_run now g i input) ≡ stored now later g i input state u
unfolding status_or
updated_run-stored now later g i input state u =
    ap (λ (t : String). record (stored now later g i input state u) { status = t }) (by u.status)
  where
    by :
        (o : Option String)
        → status_or o state
          ≡ first_filled "running" (given o ∷ said (get_field "status" state) ∷ [])
    by none = rw (said-status_of state) refl
    by (some s) = rw (said-status_of state) refl

-- A run that is created and then updated is read as it was written: under its name, with its input,
-- the state and the error of the update, the times of both and the time of its end if the update
-- completes it; its status is that which the update gives, or else that of the state, or else
-- `running`. Nothing sensitive is in its input or in its state, at any depth. Every other run is read
-- as before.
pub get_run-update_run_state :
    (now later : ℕ) (g i j : String) (input state : Fields) (u : RunUpdate) (s : GraphRunStore)
    → (get_run j (update_run_state later i state u (create_run now g i input s))
        ≡ (if i === j then some (stored now later g i input state u) else get_run j s))
      × IsClean (stored now later g i input state u).input
      × IsClean (stored now later g i input state u).state
get_run-update_run_state now later g i j input state u s = (
  get_run-updated later i j state u (create_run now g i input s)
      ∙ rw (get_run-create_run now g i j input s) (by (i === j)),
  (sanitize_for_storage_lem "" input).0,
  (sanitize_for_storage_lem "" state).0,
)
  where
    by :
        (b : Bool)
        → (if b
            then updated later state u (if b then some (created_run now g i input) else get_run j s)
            else if b
            then some (created_run now g i input)
            else get_run j s)
          ≡ (if b then some (stored now later g i input state u) else get_run j s)
    by true = ap some (updated_run-stored now later g i input state u)
    by false = refl
