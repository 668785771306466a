-- ===== src/Domain.antt =====
-- internal/domain
pub mod Words
pub mod Identity
pub mod Classification
mod Tests
