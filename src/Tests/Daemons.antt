-- ===== src/Tests/Daemons.antt =====
-- The daemon at concrete settings, one cycle after a failure.
use ops_incident_collector.Prelude.{
  String, Bool, false, some, [], ◌∷◌, ◌≡◌, ◌≢◌, ◌===◌, ◌≤◌, refl, ok, arith,
}
use ops_incident_collector.Config.Settings.{AppSettings}
use ops_incident_collector.Daemon.{
  Daemon, new_state, health_status, run, run_loop, validate_startup,
}
use ops_incident_collector.Daemon.Cycles.{run-stops}
use ops_incident_collector.Daemon.Health.{run_loop-not_ok}
use ops_incident_collector.Daemon.Startup.{IsStartable, validate_startup-IsStartable}
use ops_incident_collector.Tests.Fixtures.{system, machine, settings}

abbrev watching : AppSettings
watching = record settings {
  sources =
      record { name = "src"; kind = "filesystem"; path = "/data"; include = []; exclude = [] } ∷ [];
}

abbrev exists : String → Bool
exists path = path === "/data"

abbrev daemon : Daemon
daemon = record { machine = machine; state = new_state; summaries = [] }

abbrev failed_once : Daemon
failed_once = record daemon { state = record new_state { last_failed_sync = some 40_000 } }

validate_startup-accepts : validate_startup system exists (λ n. "sync_1") watching ≡ ok tt
unfolding validate_startup
validate_startup-accepts = refl

validate_startup-IsStartable_example : IsStartable system exists (λ n. "sync_1") watching
validate_startup-IsStartable_example =
    validate_startup-IsStartable system exists (λ n. "sync_1") watching validate_startup-accepts

run_loop-not_ok_example :
    health_status
      (run_loop system exists
        (λ n. "sync_1")
        watching
        (some 2)
        false
        (false ∷ false ∷ [])
        failed_once).1
    ≢ "ok"
run_loop-not_ok_example =
    run_loop-not_ok system exists (λ n. "sync_1") watching (some 2) false (false ∷ false ∷ [])
      failed_once refl

run-stops_example :
    let r =
      run system exists (λ n. "sync_1") watching (some 2) false false (false ∷ false ∷ []) daemon in
    (r.0 ≡ ok false) × (r.1.state.running ≡ false) × (r.1.state.cycles_completed ≤ 2)
run-stops_example =
    run-stops system exists (λ n. "sync_1") watching 2 false false (false ∷ false ∷ []) daemon
      validate_startup-accepts refl (omega arith) (omega arith)
