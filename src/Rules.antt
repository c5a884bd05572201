-- ===== src/Rules.antt =====
-- The parts that touch no table: paging, page numbers, the queue, references, HTTP, the indexer,
-- scans.
pub mod Paging
pub mod Pages
pub mod Queue
pub mod Draining
pub mod Quiet
pub mod Crew
pub mod References
pub mod Http
pub mod Indexer
pub mod Polling
pub mod Waiting
pub mod Idle
pub mod Exchange
pub mod Vision
pub mod Rendering
pub mod Content
pub mod Retaining
pub mod Contract
pub mod Answering
