-- ===== src/Advisor.antt =====
-- app/agents: the advisor graph, its state and its nodes.
pub mod State
pub mod Messages
pub mod Metadata
pub mod Updates
pub mod Outcome
pub mod Conversation
pub mod Capture
pub mod Handbook
pub mod Stage1
pub mod Stage2
pub mod Graph
pub mod Verdicts
pub mod Output
pub mod Confirmation
mod Samples
