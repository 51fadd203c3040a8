-- ===== src/LanggraphAgent.antt =====
-- opsincident_collector/langgraph_agent: the graphs of the agent, their nodes, and what they store.
pub mod RunStore
pub mod ApprovalStore
pub mod State
pub mod Dumps
pub mod Nodes
pub mod Graphs
pub mod Session
pub mod Runner
pub mod Decisions
