-- ===== src/Infra.antt =====
-- internal/infra: the clients of other services, what they decide on the replies that they get.
pub mod Operations
pub mod Recall
pub mod Http
pub mod Hindsight
pub mod Vision
pub mod Storage
pub mod Pages
