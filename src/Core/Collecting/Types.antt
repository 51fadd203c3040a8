-- ===== src/Core/Collecting/Types.antt =====
-- The source type that core/pipeline.py's `run_sync` gives to each document.
use ops_incident_collector.Prelude.{String, List, [], ◌∷◌, ◌≡◌}
use ops_incident_collector.Core.Models.{NormalizedDocument}
use ops_incident_collector.Core.Machine.{System}
use ops_incident_collector.Core.Collecting.{SyncRequest, Sync, kind_of}
use ops_incident_collector.Config.Settings.{AppSettings}

-- Each document has the source type that the one before it leaves, the first one the given one; and
-- the type that the last one leaves.
pub IsChain : String → List NormalizedDocument → Type 0
IsChain source_type [] = Unit
IsChain source_type (d ∷ ds) = (d.source_type ≡ source_type) × IsChain (kind_of d) ds

last_kind : String → List NormalizedDocument → String
last_kind source_type [] = source_type
last_kind source_type (d ∷ ds) = last_kind (kind_of d) ds

module _ (system : System) (settings : AppSettings) (request : SyncRequest) where
  Chained : String → Sync → Type 0
  Chained t s = IsChain t s.documents × (s.source_type ≡ last_kind t s.documents)
