-- ===== src/Healthy.antt =====
-- Runs in which the database answers: what each operation of internal/usecase then returns.
pub mod Statements
pub mod Serving
pub mod Search
pub mod Totals
pub mod Building
pub mod Failing
pub mod Draining
pub mod Content
pub mod Uploads
pub mod Joining
pub mod Journey
pub mod FullQueue
