-- ===== src/AgentState.antt =====
-- internal/agentstate: the state of an agent, read off the lines of its screen by the rules of a
-- manifest.
pub mod Model
pub mod Region
pub mod Matching
pub mod Inspecting
pub mod Sorting
pub mod Detector
pub mod Manifest
pub mod Loader
