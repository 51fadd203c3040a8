-- ===== src/Daemon/Cycles.antt =====
-- How often the loop of `run` in daemon/service.py goes round.
use ops_incident_collector.Prelude.{
  ℕ, String, Bool, true, false, not, ◌||◌, ap, suc, none, some, List, [], ◌∷◌, ◌+◌, ◌≤◌, ◌<◌, ◌≡◌,
  refl, leb, length, arith, Result, ok, raise, if◌then◌else◌, truthy?, Preserves, Preserves-bind,
}
use ops_incident_collector.Core.Json.{Value}
use ops_incident_collector.Core.Models.{SyncSummary}
use ops_incident_collector.Core.Machine.{System, Machine}
use ops_incident_collector.Config.Settings.{AppSettings, SourceConfig, resolve_token}
use ops_incident_collector.Adapters.Http.{World}
use ops_incident_collector.Adapters.Client.{health}
use ops_incident_collector.Core.Targets.{or_empty}
use ops_incident_collector.Daemon.{
  Daemon, synced, sync_source, sync_sources, reached, refresh_core_reachable, settle, run_cycle,
  run_loop, run, stop_running, validate_startup,
}

abbrev pub HasCompleted : ℕ → Daemon → Type 0
HasCompleted n d = d.state.cycles_completed ≡ n

abbrev pub Stopped : ℕ → Bool × Daemon → Type 0
Stopped bound r = (r.0 ≡ false) × (r.1.state.cycles_completed ≤ bound)

module _ (system : System) (exists : String → Bool) (draw : ℕ → String)
    (settings : AppSettings) where
  synced-HasCompleted :
      (n : ℕ) (d : Daemon) (r : Result SyncSummary × Machine)
      → HasCompleted n d
      → HasCompleted n (synced system exists draw settings d r).1
  synced-HasCompleted n d (ok summary, m) h = h
  synced-HasCompleted n d (raise e, m) h = h

  sync_sources-HasCompleted :
      (n : ℕ) (sources : List SourceConfig)
      → Preserves (HasCompleted n) (sync_sources system exists draw settings sources)
  unfolding sync_sources sync_source
  sync_sources-HasCompleted n [] = record { at = λ d h. h }
  sync_sources-HasCompleted n (source ∷ sources) =
      Preserves-bind {m = sync_source system exists draw settings source}
        (record { at = λ d h. synced-HasCompleted n d _ h })
        (λ _. sync_sources-HasCompleted n sources)

  refresh_core_reachable-HasCompleted :
      (n : ℕ) (d : Daemon)
      → HasCompleted n d
      → HasCompleted n (refresh_core_reachable system exists draw settings d)
  unfolding refresh_core_reachable
  refresh_core_reachable-HasCompleted n d h = by (not (truthy? settings.api.base_url)) (
      health
        (system.connect (or_empty settings.api.base_url)
          (resolve_token system.environment settings.api))
        system.collector_version d.machine.world)
    where
      by :
          (b : Bool) (r : Result Value × World)
          → HasCompleted n (
              if b
              then record d { state = record d.state { core_reachable = none } }
              else reached system exists draw settings d r)
      by true r = h
      by false (ok v, w) = h
      by false (raise e, w) = h

  settle-HasCompleted :
      (n : ℕ) (r : Result (Unit {0}) × Daemon)
      → HasCompleted n r.1
      → HasCompleted n (settle system exists draw settings r)
  unfolding settle
  settle-HasCompleted n (ok u, d) h = h
  settle-HasCompleted n (raise e, d) h = h

  run_cycle-completes :
      (n : ℕ) (d : Daemon)
      → HasCompleted n d
      → HasCompleted (n + 1) (run_cycle system exists draw settings d)
  unfolding run_cycle
  run_cycle-completes n d h =
      ap (λ k. k + 1)
        (settle-HasCompleted n
          (sync_sources system exists draw settings settings.sources
            (record (refresh_core_reachable system exists draw settings d) { summaries = [] }))
          ((sync_sources-HasCompleted n settings.sources).at
            (record (refresh_core_reachable system exists draw settings d) { summaries = [] })
            (refresh_core_reachable-HasCompleted n d h)))

  run_loop-stops :
      (bound : ℕ) (run_once : Bool) (waits : List Bool) (d : Daemon) (n : ℕ)
      → HasCompleted n d
      → bound ≤ n + length waits
      → n < bound
      → Stopped bound (run_loop system exists draw settings (some bound) run_once waits d)
  unfolding run_loop
  run_loop-stops bound run_once [] d n h m k = absurd (clash m k)
    where
      clash : bound ≤ n + 0 → n < bound → ⊥
      clash m k = omega arith
  run_loop-stops bound run_once (stop ∷ waits) d n h m k =
      either (leb bound next.state.cycles_completed) run_once stop
        (run_loop system exists draw settings (some bound) run_once waits next)
        (within n next.state.cycles_completed (run_cycle-completes n d h) k)
        (λ e.
          run_loop-stops bound run_once waits next (n + 1) (run_cycle-completes n d h)
            (fewer (length waits) m)
            (more next.state.cycles_completed (run_cycle-completes n d h) e))
    where
      next : Daemon
      next = run_cycle system exists draw settings d

      within : (i c : ℕ) → c ≡ i + 1 → i < bound → c ≤ bound
      within i c e k = omega arith

      fewer : (l : ℕ) → bound ≤ n + suc l → bound ≤ (n + 1) + l
      fewer l m = omega arith

      more : (c : ℕ) → c ≡ n + 1 → leb bound c ≡ false → n + 1 < bound
      more c e f = grind arith

      either :
          (b once stop : Bool) (r : Bool × Daemon)
          → next.state.cycles_completed ≤ bound
          → (b ≡ false → Stopped bound r)
          → Stopped bound (if (b || once) || stop then (false, next) else r)
      either true once stop r c f = (refl, c)
      either false true stop r c f = (refl, c)
      either false false true r c f = (refl, c)
      either false false false r c f = f refl

  -- A daemon that has completed no cycle yet, whose settings are accepted and whose cycles have a
  -- bound, returns from `run` after at most that many waits, whatever Core and the files do in between;
  -- it is then not running and has completed at most as many cycles as the bound.
  pub run-stops :
      (bound : ℕ) (run_once stopped : Bool) (waits : List Bool) (d : Daemon)
      → validate_startup system exists draw settings ≡ ok tt
      → HasCompleted 0 d
      → 0 < bound
      → bound ≤ length waits
      → let r = run system exists draw settings (some bound) run_once stopped waits d in
        (r.0 ≡ ok false) × (r.1.state.running ≡ false) × (r.1.state.cycles_completed ≤ bound)
  unfolding run
  run-stops bound run_once stopped waits d accepts h some_cycle enough =
      rw (accepts, run) (by stopped)
    where
      ready : Daemon
      ready = record (refresh_core_reachable system exists draw settings d) {
        state = record (refresh_core_reachable system exists draw settings d).state {
          running = true;
        };
      }

      finished :
          (r : Bool × Daemon)
          → Stopped bound r
          → let s = stop_running system exists draw settings r in
            (s.0 ≡ ok false) × (s.1.state.running ≡ false) × (s.1.state.cycles_completed ≤ bound)
      finished (true, e) k = absurd cc
      finished (false, e) k = (refl, refl, k.1)

      started : (c : ℕ) → c ≡ 0 → c ≤ bound
      started c e = omega arith

      by :
          (b : Bool)
          → let s = stop_running system exists draw settings (
              if b
              then (false, ready)
              else run_loop system exists draw settings (some bound) run_once waits ready) in
            (s.0 ≡ ok false) × (s.1.state.running ≡ false) × (s.1.state.cycles_completed ≤ bound)
      by true = (
        refl,
        refl,
        started ready.state.cycles_completed (refresh_core_reachable-HasCompleted 0 d h),
      )
      by false = finished (run_loop system exists draw settings (some bound) run_once waits ready) (
          run_loop-stops bound run_once waits ready 0 (refresh_core_reachable-HasCompleted 0 d h)
            (omega arith) some_cycle)
