-- ===== src/Usecase.antt =====
-- internal/usecase: the operations of the service, over the repositories and the ports.
pub mod References
pub mod Paging
pub mod Documents
pub mod KnowledgeBases
pub mod Queue
pub mod Builds
pub mod Memories
pub mod Search
pub mod Worker
pub mod Crew
pub mod Parts
