-- ===== src/LanggraphAgent/Nodes.antt =====
-- langgraph_agent/nodes: what the nodes of the graphs reach. A node takes the state of its graph and
-- returns an update of it; it may raise.
pub mod Local
pub mod Syncing
pub mod Bridge
pub mod Summaries
pub mod Verifying
pub mod Outputs
use ops_incident_collector.Prelude.{ℕ, String, Option, List, Result, ok, raise, Action}
use ops_incident_collector.Core.Json.{Value, Fields}
use ops_incident_collector.Core.Machine.{System, Machine}
use ops_incident_collector.Config.Settings.{AppSettings}
use ops_incident_collector.Config.Loader.{Models, load_settings_optional}
use ops_incident_collector.LanggraphAgent.State.{get_true_text}

-- What the nodes are given: beside the system, the reader of the configuration, the name and the
-- version of a prompt (`load_prompt`), the identifiers that are drawn, `str` of a value that is no
-- text, and what LangGraph takes of an update into the channels of a graph's schema.
pub record Agent : Type 1 where
  pub system : System
  pub models : Models
  pub prompt : String → Result Value
  pub draw : ℕ → String
  pub show : Value → String
  pub channel_writes : (schema : List String) → Fields → Fields

abbrev pub Node : Type 0
Node = Fields → Action Machine Fields

-- `return f(a)` of what may have raised.
abbrev pub with_ok {ℓ κ} : {A : Type ℓ} {B : Type κ} → Result A → (A → Result B) → Result B
with_ok (ok a) f = f a
with_ok (raise e) f = raise e

-- A node that changes nothing but the state of its graph.
abbrev pub pure_node : (Fields → Result Fields) → Node
pure_node f state m = (f state, m)

module _ (agent : Agent) where
  -- `load_settings_for_state`
  unfoldable pub load_settings_for_state : Fields → Result AppSettings
  unfolding load_settings_optional get_true_text
  load_settings_for_state state =
      load_settings_optional agent.models agent.system.environment
        (get_true_text "config_path" state)
