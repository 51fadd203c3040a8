-- ===== src/LanggraphAgent/Runner/Failures.antt =====
-- langgraph_agent/runner.py: where a new run that raises is recorded.
use ops_incident_collector.Prelude.{
  ℕ, String, true, false, Option, none, some, ◌===◌, ◌≡◌, ◌≢◌, refl, sym, ap, subst, ◌∙◌, Result,
  ok, raise, Exc, Action, ◌>>=◌, try_except, gets, ◌>>◌, eq_refl, if◌then◌else◌, Triple,
  Triple-bind, After,
}
use ops_incident_collector.Core.Json.{Fields, text, put_field}
use ops_incident_collector.Config.Loader.{load_settings_optional}
use ops_incident_collector.Config.Settings.{AppSettings}
use ops_incident_collector.Exporters.ExportState.{describe}
use ops_incident_collector.LanggraphAgent.RunStore.{
  GraphRun, GraphRunStore, RunUpdate, created_run, update_run_state, get_run, status_or,
}
use ops_incident_collector.LanggraphAgent.RunStore.Runs.{
  updated, get_run-updated, get_run-create_run,
}
use ops_incident_collector.LanggraphAgent.State.{get_true_text}
use ops_incident_collector.LanggraphAgent.Nodes.{Agent}
use ops_incident_collector.LanggraphAgent.Graphs.{Graph, graph_builders}
use ops_incident_collector.LanggraphAgent.Runner.{
  stream_graph, prepare_run, started, create_unless, fail_as, failed_state, graph_failed,
  graph_body, input_or, failed_id, run_graph,
}
use ops_incident_collector.LanggraphAgent.Session.{GraphSession, initial_state}
use ops_incident_collector.LanggraphAgent.Runner.OpenRows.{
  IsOpen, OpenIn, create_run-OpenIn, stream_graph-Open,
}

-- A row that records a failure, with its text and the time.
abbrev pub IsFailed : ℕ → Exc → Option GraphRun → Type 0
IsFailed now e none = ⊥
IsFailed now e (some r) =
    (r.status ≡ "failed") × ((r.error ≡ some (describe e)) × (r.completed_at ≡ some now))

-- The handler's two writes, under an identifier that is drawn for them.
module _ (agent : Agent) (graph_name : String) (now : ℕ) (other : String) (e : Exc)
    (state : Fields) where
  abbrev as_failed : RunUpdate
  as_failed = record { status = some "failed"; error = some (describe e); completed = true }

  abbrev recorded : Option GraphRun → GraphRunStore → GraphRunStore
  recorded o store =
      update_run_state now other state as_failed
        (create_unless agent graph_name o now other state store)

  recorded-OpenIn :
      (fresh : String) (o : Option GraphRun) (store : GraphRunStore)
      → (other === fresh) ≡ false
      → OpenIn fresh store
      → OpenIn fresh (recorded o store)
  recorded-OpenIn fresh o store apart h =
      subst IsOpen
        (sym (
          get_run-updated now other fresh state as_failed
            (create_unless agent graph_name o now other state store)
          ∙ ap
              (λ b.
                if b
                then updated now state as_failed
                    (get_run fresh (create_unless agent graph_name o now other state store))
                else get_run fresh (create_unless agent graph_name o now other state store))
              apart))
        (by o)
    where
      by :
          (o : Option GraphRun)
          → OpenIn fresh (create_unless agent graph_name o now other state store)
      by none =
          subst IsOpen
            (sym (
              get_run-create_run now graph_name other fresh state store
              ∙ ap
                  (λ b.
                    if b
                    then some (created_run now graph_name other state)
                    else get_run fresh store)
                  apart))
            h
      by (some r) = h

  found : (o : Option GraphRun) → o ≢ none → IsFailed now e (updated now state as_failed o)
  unfolding status_or
  found none h = absurd (h refl)
  found (some r) h = (refl, (refl, refl))

  recorded-IsFailed :
      (o : Option GraphRun) (store : GraphRunStore)
      → get_run other store ≡ o
      → IsFailed now e (get_run other (recorded o store))
  recorded-IsFailed o store g =
      subst (IsFailed now e)
        (sym (
          get_run-updated now other other state as_failed
            (create_unless agent graph_name o now other state store)
          ∙ ap
              (λ b.
                if b
                then updated now state as_failed
                    (get_run other (create_unless agent graph_name o now other state store))
                else get_run other (create_unless agent graph_name o now other state store))
              (eq_refl other)))
        (found _ (by o g))
    where
      by :
          (o : Option GraphRun)
          → get_run other store ≡ o
          → get_run other (create_unless agent graph_name o now other state store) ≢ none
      by none g h = cc (
          sym h
          ∙ (get_run-create_run now graph_name other other state store
              ∙ ap
                  (λ b.
                    if b
                    then some (created_run now graph_name other state)
                    else get_run other store)
                  (eq_refl other)))
      by (some r) g h = cc (sym g ∙ h)

module _ (agent : Agent) (graph_name : String) (graph : Graph) (fresh other : String)
    (input : Fields) (unnamed : get_true_text "run_id" input ≡ none) where
  abbrev body_of : Option String → Action GraphSession Fields
  body_of o = do
    run_id ← started agent graph_name (input_or agent graph_name o fresh) input
    stream_graph agent graph_name run_id graph
    gets (λ s. s.state)

  body_of-OpenIn :
      (o : Option String)
      → o ≡ none
      → Triple (λ s. OpenIn fresh s.store) (λ s. Unit {0}) (λ s. Unit {0}) (body_of o)
  body_of-OpenIn none e = record {
    at = λ s h.
        (Triple-bind {f = λ u. gets (λ s. s.state)} (stream_graph-Open agent graph_name fresh graph)
            (λ u. record { at = λ s h. h })).at
          _
          (create_run-OpenIn s.machine.world.clock graph_name fresh
            (initial_state (put_field "run_id" (text fresh) input)) s.store);
  }
  body_of-OpenIn (some i) e = absurd cc

  graph_body-OpenIn :
      Triple
        (λ s. OpenIn fresh s.store)
        (λ s. Unit {0})
        (λ s. Unit {0})
        (graph_body agent graph_name graph none fresh input)
  unfolding graph_body prepare_run
  graph_body-OpenIn = body_of-OpenIn (get_true_text "run_id" input) unnamed

  -- What stands in the store after the handler.
  abbrev Recorded : Exc → GraphSession → Type 0
  Recorded e t =
      IsOpen (get_run fresh t.store) × IsFailed t.machine.world.clock e (get_run other t.store)

  fail_as-Recorded :
      (i : String) (e : Exc) (t : GraphSession)
      → i ≡ other
      → (other === fresh) ≡ false
      → OpenIn fresh t.store
      → Recorded e (fail_as agent graph_name i e input t)
  fail_as-Recorded i e t named apart h =
      subst (λ j. Recorded e (fail_as agent graph_name j e input t)) (sym named)
        (
          recorded-OpenIn agent graph_name t.machine.world.clock other e
              (failed_state agent graph_name other e input) fresh (get_run other t.store) t.store
              apart h,
          recorded-IsFailed agent graph_name t.machine.world.clock other e
              (failed_state agent graph_name other e input) (get_run other t.store) t.store refl,
        )

  raised :
      (p : Result Fields × GraphSession) (e : Exc)
      → (other === fresh) ≡ false
      → After (λ t. OpenIn fresh t.store) (λ t. Unit {0}) p
      → (try_except
          (λ (s : GraphSession). p)
          (graph_failed agent graph_name none other input)
          p.1).0
        ≡ raise e
      → Recorded e
          (try_except
            (λ (s : GraphSession). p)
            (graph_failed agent graph_name none other input)
            p.1).1
  unfolding graph_failed
  raised (ok state, t) e apart h r = absurd cc
  raised (raise f, t) e apart h r =
      subst
        (λ g.
          Recorded g
            (fail_as agent graph_name (failed_id agent graph_name input none other) f input t))
        (same r)
        (fail_as-Recorded (failed_id agent graph_name input none other) f t
          (ap (λ o. input_or agent graph_name o other) unnamed) apart h)
    where
      same : {g e : Exc} → ◌≡◌ {A = Result Fields} (raise g) (raise e) → g ≡ e
      same r = cc r

  -- A new run whose input has no identifier gets one that is drawn. If such a run raises, although its
  -- graph is known and the configuration is read, the handler draws another identifier: the failure is
  -- recorded in the row of that one, with its text and the time, and the row of the run itself stands
  -- open, with no error and no time of completion.
  pub run_graph-raised :
      (settings : AppSettings) (config_path : Option String) (s : GraphSession) (e : Exc)
      → load_settings_optional agent.models agent.system.environment config_path ≡ ok settings
      → graph_builders agent graph_name ≡ some graph
      → (other === fresh) ≡ false
      → (run_graph agent graph_name config_path none fresh other input s).0 ≡ raise e
      → Recorded e (run_graph agent graph_name config_path none fresh other input s).1
  unfolding run_graph
  run_graph-raised settings config_path s e read known apart =
      rw (read, known)
        (raised (graph_body agent graph_name graph none fresh input s) e apart
          (graph_body-OpenIn.at s tt))
