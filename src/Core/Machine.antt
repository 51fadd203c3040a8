-- ===== src/Core/Machine.antt =====
-- What core/pipeline.py reaches: the functions that it is given, and the state that it changes.
use ops_incident_collector.Prelude.{String, List, Option, Dict}
use ops_incident_collector.Core.Json.{Value}
use ops_incident_collector.State.Store.{SqliteStore}
use ops_incident_collector.Config.Settings.{Environment}
use ops_incident_collector.Adapters.Http.{Service, World}
use ops_incident_collector.Processors.Regex.{Engine}
use ops_incident_collector.Processors.PathPolicy.{Paths}
use ops_incident_collector.Processors.Normalizer.{Extractors}
use ops_incident_collector.Receivers.Filesystem.{Files}
use ops_incident_collector.Exporters.Local.{Encoder}

-- What is not in the source: the file system, the regular expressions, the environment, Core.
pub record System : Type 0 where
  pub paths : Paths
  pub files : Files
  pub engine : Engine
  pub extractors : Extractors
  pub encoder : Encoder
  pub environment : Environment
  -- `CoreClient(base_url, token=token, ...)`
  pub connect : (base_url : String) → (token : Option String) → Service
  pub collector_version : String

-- The network and the state database; the files, databases and lines that the other exporters write,
-- which are not the state database; and the lines of the audit log.
pub record Machine : Type 0 where
  pub world : World
  pub output_files : Dict (List String)
  pub output_databases : Dict SqliteStore
  pub printed : List String
  pub audit_log : List Value
