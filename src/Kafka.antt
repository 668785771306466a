-- ===== src/Kafka.antt =====
-- internal/adapter/kafka
pub mod Tracker
pub mod Records
pub mod Groups
pub mod Async
pub mod RebalanceYield
pub mod Consumer
pub mod AsyncRunner
pub mod YieldRunner
mod Tests
