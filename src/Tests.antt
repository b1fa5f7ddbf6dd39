-- ===== src/Tests.antt =====
-- Concrete inputs: data, runs of the definitions, and the theorems at inputs where they apply.
pub mod Data
pub mod Configs
pub mod Texts
pub mod Candidates
pub mod Windows
pub mod Outcomes
pub mod Stores
pub mod Sources
pub mod Daemons
pub mod Cases
pub mod Starts
