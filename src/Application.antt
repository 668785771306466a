-- ===== src/Application.antt =====
-- internal/application: the use cases, and the ports through which they reach the adapters.
pub mod Messaging
pub mod WorkerErrors
pub mod DeadLetters
pub mod Handlers
pub mod LightCurves
pub mod CoarseMode
pub mod Proto
pub mod Candidates
pub mod Commands
pub mod Inputs
pub mod Predictions
pub mod Runs
pub mod Probabilities
pub mod ResultRules
pub mod Results
pub mod Pipeline
mod Tests
mod Fixtures
mod CandidateTests
mod ResultTests
mod RunTests
mod WorkerTests
