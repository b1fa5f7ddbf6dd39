-- ===== src/Pipeline.antt =====
-- internal/pipeline: the two-window sync of one wallet and the detection of poisoning candidates.
pub mod Detection
pub mod Validation
pub mod Candidate
pub mod Fetch
pub mod Core
pub mod Dust
pub mod Runner
pub mod Orchestrator
