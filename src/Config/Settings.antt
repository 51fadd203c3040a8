-- ===== src/Config/Settings.antt =====
-- config/settings.py and config/source_config.py. A setting that Python allows to be a negative
-- integer is a natural number here.
use ops_incident_collector.Prelude.{
  ℕ, String, Bool, Option, List, [], ◌∷◌, ◌&&◌, truthy, truthy?, if◌then◌else◌,
}

pub record SourceConfig : Type 0 where
  pub name : String
  pub kind : String
  pub path : String
  pub include : List String
  pub exclude : List String

pub record ApiSettings : Type 0 where
  pub base_url : Option String
  pub token : Option String
  pub token_env : String
  pub timeout_seconds : ℕ
  pub verify_tls : Bool
  pub auth_required : Bool

pub record CollectorSettings : Type 0 where
  pub id : String
  pub name : String
  pub mode : String
  pub environment : String

pub record SyncSettings : Type 0 where
  pub batch_size : ℕ
  pub max_file_size_mb : ℕ
  pub incremental : Bool
  pub dry_run : Bool
  pub compression : Bool
  pub retry_count : ℕ
  pub retry_backoff_seconds : ℕ
  pub retry_due_on_start : Bool

pub record SecuritySettings : Type 0 where
  pub redact_secrets : Bool
  pub require_confirmation_for_upload : Bool
  pub allow_paths : List String
  pub deny_patterns : List String

pub record DaemonSettings : Type 0 where
  pub enabled : Bool
  pub interval_seconds : ℕ
  pub jitter_seconds : ℕ
  pub run_once : Bool
  pub health_enabled : Bool
  pub health_host : String
  pub health_port : ℕ
  pub metrics_enabled : Bool
  pub metrics_host : String
  pub metrics_port : ℕ
  pub max_cycles : Option ℕ
  pub export_target : String
  pub output_path : Option String
  pub allow_unattended_upload : Bool
  pub source_name : Option String
  pub source_type : String
  pub max_depth : ℕ

pub record AppSettings : Type 0 where
  pub api : ApiSettings
  pub project_id : Option String
  pub collector : CollectorSettings
  pub sqlite_path : String
  pub sync : SyncSettings
  pub security : SecuritySettings
  pub daemon : DaemonSettings
  pub sources : List SourceConfig

abbrev pub default_supported_extensions : List String
default_supported_extensions =
    ".md" ∷ ".txt" ∷ ".log" ∷ ".json" ∷ ".yaml" ∷ ".yml" ∷ ".py" ∷ ".js" ∷ ".ts" ∷ ".java" ∷ ".go"
    ∷ ".proto" ∷ ".patch" ∷ ".diff" ∷ ".sql" ∷ ".toml" ∷ ".ini" ∷ []

abbrev pub default_deny_patterns : List String
default_deny_patterns =
    ".env" ∷ ".env.*" ∷ "*.pem" ∷ "*.key" ∷ "id_rsa" ∷ "id_ed25519" ∷ "*.p12" ∷ "*.pfx" ∷ "*.crt"
    ∷ "*.cer" ∷ ".git/**" ∷ "node_modules/**" ∷ ".venv/**" ∷ "venv/**" ∷ "__pycache__/**"
    ∷ "dist/**" ∷ "build/**" ∷ "target/**" ∷ ".next/**" ∷ ".pytest_cache/**" ∷ ".mypy_cache/**"
    ∷ ".ruff_cache/**" ∷ "*.sqlite" ∷ "*.db" ∷ "*.parquet" ∷ "*.zip" ∷ "*.tar" ∷ "*.gz" ∷ "*.7z"
    ∷ "*.png" ∷ "*.jpg" ∷ "*.jpeg" ∷ "*.mp4" ∷ "*.mov" ∷ "*.pdf" ∷ []

-- The process environment, `os.getenv`.
abbrev pub Environment : Type 0
Environment = String → Option String

-- `ApiSettings.resolve_token`
unfoldable pub resolve_token : Environment → ApiSettings → Option String
resolve_token getenv api =
    if truthy api.token_env && truthy? (getenv api.token_env)
    then getenv api.token_env
    else api.token
