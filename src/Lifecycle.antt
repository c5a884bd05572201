-- ===== src/Lifecycle.antt =====
-- The life of the metadata: which changes of the tables the operations of internal/usecase may
-- make, as a step relation on the tables, and what holds after every sequence of such changes.
pub mod Steps
pub mod Ends
pub mod Runs
pub mod Guarded
pub mod Statements
pub mod Frames
pub mod KnowledgeBases
pub mod Documents
pub mod Builds
pub mod Invariant
pub mod History
pub mod Searches
pub mod Snapshot
pub mod Votes
pub mod Schema
pub mod Reviewers
pub mod Corrections
pub mod Outcomes
pub mod Cascades
pub mod Handlers
pub mod Api
