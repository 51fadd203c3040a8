-- ===== src/Tests/Fixtures.antt =====
-- A small project: a tree of four files, settings, and a Core that knows no batch endpoint or takes
-- every batch.
use ops_incident_collector.Prelude.{
  ℕ, String, Bool, true, false, none, some, [], ◌∷◌, ◌==◌, ◌===◌, starts_with, contains, ends_with,
  if◌then◌else◌, Result, ok, raise, os_error,
}
use ops_incident_collector.Core.Json.{null, text, object, end, field}
use ops_incident_collector.Core.Models.{NormalizedDocument}
use ops_incident_collector.Core.Machine.{System, Machine}
use ops_incident_collector.Core.Collecting.{SyncRequest, Sync}
use ops_incident_collector.Core.Pipeline.{new_sync}
use ops_incident_collector.Core.Targets.{new_export}
use ops_incident_collector.Config.Settings.{AppSettings, Environment}
use ops_incident_collector.State.Store.{SqliteStore, FailedUpload, empty_store}
use ops_incident_collector.Adapters.Http.{Service, World, Request, Reply, answered}
use ops_incident_collector.Processors.Regex.{Regex, Engine}
use ops_incident_collector.Processors.Normalizer.{Extractors}
use ops_incident_collector.Receivers.Filesystem.{Entry, Files}
use ops_incident_collector.Exporters.ExportState.{Exporter, Export}

-- An engine that knows one expression, that of the bearer tokens, by one token.
abbrev pub finds : Regex → String → Bool
unfolding starts_with contains
finds r s = if starts_with r.source "Bearer" then contains s "Bearer abc" else false

abbrev pub engine : Engine
engine = record {
  count = λ r s. if finds r s then 1 else 0;
  subn = λ r replacement s. if finds r s then (replacement, 1) else (s, 0);
  search = λ r s. false;
  search_group = λ r n s. none;
  match_group = λ r n s. none;
}

-- An engine that takes every text for a secret.
abbrev pub blanking : Engine
blanking = record engine { count = λ r text. 1; subn = λ r replacement text. (replacement, 1) }

abbrev pub extractors : Extractors
extractors = record {
  base_metadata = λ path content kind. field "lines" (text content) end;
  logs_folder = λ path content. end;
  git_local = λ path content. end;
  deploy_history = λ path content. end;
  runbooks = λ path content. end;
  incidents = λ path content. end;
  api_docs = λ path content. end;
  parse = λ content. none;
}

abbrev pub entry : String → ℕ → Entry
entry relative_path size = record {
  path = relative_path;
  relative_path = relative_path;
  is_file = true;
  st_size = size;
  st_mtime = 7;
}

abbrev pub content_of : String → Result String
content_of path =
    if path === "app.log"
    then ok "Bearer abc"
    else if path === "run.md"
    then ok "restart"
    else raise (os_error "no such file")

abbrev pub files : Files
files = record {
  sorted_rglob =
      λ root. entry ".env" 5 ∷ entry "app.log" 10 ∷ entry "empty.txt" 0 ∷ entry "run.md" 7 ∷ [];
  read_bytes = λ path. ok (65 ∷ 66 ∷ []);
  read_text = content_of;
  sha256 = λ path. ok (if path === "app.log" then "aa" else "bb");
}

-- Core without a batch endpoint: 404 to everything. Core with one: an object to everything.
abbrev pub refusing : Service
refusing = record {
  reply = λ sent request. answered (record { status_code = 404; json = none });
  elapsed = λ sent request. 1000;
  validate_capabilities = λ v. none;
}

abbrev pub reply_to : Request → Reply
unfolding ends_with
reply_to request =
    if request.url === "/v1/capabilities"
    then answered (record { status_code = 404; json = none })
    else answered (record { status_code = 200; json = some (object end) })

abbrev pub accepting : Service
accepting = record {
  reply = λ sent request. reply_to request;
  elapsed = λ sent request. 1000;
  validate_capabilities = λ v. none;
}

-- Core that is down when batches come.
abbrev pub failing : Service
failing = record {
  reply = λ sent request. answered (record { status_code = 503; json = none });
  elapsed = λ sent request. 1000;
  validate_capabilities = λ v. none;
}

abbrev pub world : World
world = record { store = empty_store; sent = []; clock = 50_000 }

abbrev pub machine : Machine
machine = record {
  world = world;
  output_files = [];
  output_databases = [];
  printed = [];
  audit_log = [];
}

abbrev pub environment : Environment
environment name = if name === "INCIDENTOPS_TOKEN" then some "t" else none

abbrev pub system : System
system = record {
  paths = record { resolve = λ path. path; parents = λ path. "/" ∷ [] };
  files = files;
  engine = blanking;
  extractors = extractors;
  encoder = record { dump_envelope = λ d. d.content; utf8_length = λ s. 1 };
  environment = environment;
  connect = λ base_url token. accepting;
  collector_version = "0.1.0";
}

abbrev pub settings : AppSettings
settings = record {
  api = record {
    base_url = some "http://core";
    token = none;
    token_env = "INCIDENTOPS_TOKEN";
    timeout_seconds = 30;
    verify_tls = true;
    auth_required = true;
  };
  project_id = some "p";
  collector = record { id = "c"; name = "collector"; mode = "local"; environment = "test" };
  sqlite_path = "state.db";
  sync = record {
    batch_size = 50;
    max_file_size_mb = 10;
    incremental = true;
    dry_run = false;
    compression = false;
    retry_count = 3;
    retry_backoff_seconds = 5;
    retry_due_on_start = true;
  };
  security = record {
    redact_secrets = true;
    require_confirmation_for_upload = false;
    allow_paths = "/data" ∷ [];
    deny_patterns = ".env" ∷ "*.key" ∷ [];
  };
  daemon = record {
    enabled = false;
    interval_seconds = 60;
    jitter_seconds = 0;
    run_once = false;
    health_enabled = false;
    health_host = "127.0.0.1";
    health_port = 8080;
    metrics_enabled = false;
    metrics_host = "127.0.0.1";
    metrics_port = 9090;
    max_cycles = some 2;
    export_target = "jsonl";
    output_path = some "out.jsonl";
    allow_unattended_upload = false;
    source_name = some "src";
    source_type = "filesystem";
    max_depth = 8;
  };
  sources = [];
}

abbrev pub request : SyncRequest
request = record {
  path = "/data";
  export_target = "jsonl";
  project_id = some "p";
  source_name = "src";
  output = some "out.jsonl";
  dry_run = false;
  force = false;
  no_redact = false;
  max_depth = 8;
  source_type = "filesystem";
  include = [];
  exclude = [];
  max_files = none;
}

abbrev pub dry_request : SyncRequest
dry_request = record request { dry_run = true }

abbrev pub start : Sync
start = new_sync system settings request "sync_1" machine

-- A document, by its name.
abbrev pub document : String → NormalizedDocument
document name = record {
  document_id = none;
  source_name = "src";
  source_type = "filesystem";
  external_id = name;
  path = name;
  relative_path = some name;
  content = "text";
  content_type = "logs";
  checksum = "aa";
  size_bytes = 4;
  modified_at = some 7;
  discovered_at = 7;
  metadata = end;
  redaction = record {
    enabled = false;
    redacted_count = 0;
    patterns_matched = [];
    had_possible_secret = false;
  };
}

abbrev pub exporter : Exporter
exporter = record {
  project_id = "p";
  collector_name = "collector";
  collector_environment = "test";
  source_name = "src";
  source_type = "filesystem";
  retry_count = 3;
  retry_backoff_seconds = 5;
}

abbrev pub export : Export
export = new_export 2 start.summary world

-- A row of the queue, by its id and the attempts made.
abbrev pub row : ℕ → ℕ → FailedUpload
row id retry_count = record {
  id = id;
  sync_id = "s";
  source_name = "src";
  path = "a";
  document_external_id = if id == 1 then "one" else "two";
  payload_json = some null;
  reason = "retryable_upload_error";
  retry_count = retry_count;
  next_retry_at = some 0;
  last_error = "";
  created_at = some 5;
  updated_at = 5;
}

abbrev pub queued : SqliteStore
queued = record empty_store { failed_uploads = row 1 1 ∷ row 2 0 ∷ [] }
