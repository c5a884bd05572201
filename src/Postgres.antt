-- ===== src/Postgres.antt =====
-- internal/infra/postgres: the tables of `schema` and the effect of each statement on them.
-- A statement sees and leaves whole tables, as PostgreSQL runs it; what else can go wrong with it
-- is a fault of `superkb.World`.
pub mod Tables
pub mod Documents
pub mod KnowledgeBases
pub mod Builds
pub mod Pool
pub mod Feedback
