-- ===== src/Observability.antt =====
-- internal/observability: the backlog of a consumer group.
pub mod Backlog
mod Tests
