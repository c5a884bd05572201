-- ===== src/Tests.antt =====
-- The fixtures, and the theorems at concrete inputs.
pub mod Fixtures
pub mod Histories
pub mod Services
pub mod Rules
pub mod Api
pub mod Indexer
pub mod Settings
pub mod Wired
pub mod Workers
pub mod Client
pub mod Converter
pub mod Contents
pub mod Corrections
pub mod Failures
pub mod Files
pub mod Journeys
pub mod Missing
pub mod Searches
pub mod Deletions
