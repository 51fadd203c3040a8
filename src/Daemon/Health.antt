-- ===== src/Daemon/Health.antt =====
-- What the health of daemon/service.py says after a failure, and how long the daemon runs.
use ops_incident_collector.Prelude.{
  ℕ, String, Bool, true, false, not, ◌||◌, Option, none, some, List, [], ◌∷◌, ◌≡◌, ◌≢◌, refl, ltb,
  Result, ok, raise, if◌then◌else◌, truthy?, Preserves, Preserves-bind,
}
use ops_incident_collector.Core.Json.{Value}
use ops_incident_collector.Core.Models.{SyncSummary}
use ops_incident_collector.Core.Machine.{System, Machine}
use ops_incident_collector.Config.Settings.{AppSettings, SourceConfig, resolve_token}
use ops_incident_collector.Adapters.Http.{World}
use ops_incident_collector.Adapters.Client.{health}
use ops_incident_collector.Core.Targets.{or_empty}
use ops_incident_collector.State.Uploads.{failed_upload_queue_depth}
use ops_incident_collector.Daemon.{
  Daemon, health_status, synced, sync_source, sync_sources, reached, refresh_core_reachable, settle,
  run_cycle, run_loop, is_last,
}

abbrev has_failed : Option ℕ → Bool
has_failed none = false
has_failed (some t) = true

abbrev pub HasFailed : Daemon → Type 0
HasFailed d = has_failed d.state.last_failed_sync ≡ true

abbrev status_of : (broken queued : Bool) (last : Option ℕ) (away : Bool) → String
status_of broken queued last away =
    if broken
    then "error"
    else if queued || (elim last [ none ↦ false | some t ↦ true ]) || away
    then "degraded"
    else "ok"

health_status-HasFailed : (d : Daemon) → HasFailed d → health_status d ≢ "ok"
unfolding health_status
health_status-HasFailed d h eq =
    by (d.state.permanent_error || not d.state.state_db_writable)
      (ltb 0 (failed_upload_queue_depth none d.machine.world.store)) d.state.last_failed_sync
      (elim d.state.core_reachable [ none ↦ false | some b ↦ not b ]) h eq
  where
    by :
        (broken queued : Bool) (last : Option ℕ) (away : Bool)
        → has_failed last ≡ true
        → status_of broken queued last away ≢ "ok"
    by true queued last away k e = cc
    by false true last away k e = cc
    by false false (some t) away k e = cc
    by false false none away k e = cc

module _ (system : System) (exists : String → Bool) (draw : ℕ → String)
    (settings : AppSettings) where
  synced-HasFailed :
      (d : Daemon) (r : Result SyncSummary × Machine)
      → HasFailed d
      → HasFailed (synced system exists draw settings d r).1
  synced-HasFailed d (ok summary, m) h = h
  synced-HasFailed d (raise e, m) h = h

  sync_sources-HasFailed :
      (sources : List SourceConfig)
      → Preserves HasFailed (sync_sources system exists draw settings sources)
  unfolding sync_sources sync_source
  sync_sources-HasFailed [] = record { at = λ d h. h }
  sync_sources-HasFailed (source ∷ sources) =
      Preserves-bind {m = sync_source system exists draw settings source}
        (record { at = λ d h. synced-HasFailed d _ h }) (λ _. sync_sources-HasFailed sources)

  refresh_core_reachable-HasFailed :
      (d : Daemon) → HasFailed d → HasFailed (refresh_core_reachable system exists draw settings d)
  unfolding refresh_core_reachable
  refresh_core_reachable-HasFailed d h = by (not (truthy? settings.api.base_url)) (
      health
        (system.connect (or_empty settings.api.base_url)
          (resolve_token system.environment settings.api))
        system.collector_version d.machine.world)
    where
      after : (r : Result Value × World) → HasFailed (reached system exists draw settings d r)
      after (ok v, w) = h
      after (raise e, w) = h

      by :
          (b : Bool) (r : Result Value × World)
          → HasFailed (
              if b
              then record d { state = record d.state { core_reachable = none } }
              else reached system exists draw settings d r)
      by true r = h
      by false r = after r

  settle-HasFailed :
      (r : Result (Unit {0}) × Daemon)
      → HasFailed r.1
      → HasFailed (settle system exists draw settings r)
  unfolding settle
  settle-HasFailed (ok u, d) h = h
  settle-HasFailed (raise e, d) h = refl

  run_cycle-HasFailed :
      (d : Daemon) → HasFailed d → HasFailed (run_cycle system exists draw settings d)
  unfolding run_cycle
  run_cycle-HasFailed d h =
      settle-HasFailed
        (sync_sources system exists draw settings settings.sources
          (record (refresh_core_reachable system exists draw settings d) { summaries = [] }))
        ((sync_sources-HasFailed settings.sources).at
          (record (refresh_core_reachable system exists draw settings d) { summaries = [] })
          (refresh_core_reachable-HasFailed d h))

  run_loop-HasFailed :
      (max_cycles : Option ℕ) (run_once : Bool) (waits : List Bool) (d : Daemon)
      → HasFailed d
      → HasFailed (run_loop system exists draw settings max_cycles run_once waits d).1
  unfolding run_loop
  run_loop-HasFailed max_cycles run_once [] d h = h
  run_loop-HasFailed max_cycles run_once (stop ∷ waits) d h =
      either (is_last system exists draw settings max_cycles run_once next || stop)
        (run_loop system exists draw settings max_cycles run_once waits next)
        (run_cycle-HasFailed d h)
        (run_loop-HasFailed max_cycles run_once waits next (run_cycle-HasFailed d h))
    where
      next : Daemon
      next = run_cycle system exists draw settings d

      either :
          (b : Bool) (r : Bool × Daemon)
          → HasFailed next
          → HasFailed r.1
          → HasFailed (if b then (false, next) else r).1
      either true r k l = k
      either false r k l = l

  -- Once a cycle of the daemon has failed, its health is not "ok" after any number of further cycles,
  -- whatever these cycles do: the time of the last failure is never taken back.
  pub run_loop-not_ok :
      (max_cycles : Option ℕ) (run_once : Bool) (waits : List Bool) (d : Daemon)
      → HasFailed d
      → health_status (run_loop system exists draw settings max_cycles run_once waits d).1 ≢ "ok"
  run_loop-not_ok max_cycles run_once waits d h =
      health_status-HasFailed (run_loop system exists draw settings max_cycles run_once waits d).1
        (run_loop-HasFailed max_cycles run_once waits d h)
