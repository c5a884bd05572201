-- ===== src/Delivery.antt =====
-- internal/delivery/http: what a client is answered. Routing, JSON and the headers are
-- libraries'; a response is its status with a payload.
pub mod Response
pub mod Auth
pub mod Views
pub mod Handlers
pub mod Documents
pub mod KnowledgeBases
pub mod Api
