-- ===== src/Triton.antt =====
-- internal/adapter/triton: the tensors that the inference server is sent and answers with.
pub mod Tensors
pub mod Values
pub mod Messages
pub mod Classifier
mod Tests
