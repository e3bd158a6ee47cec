-- ===== src/Executor.antt =====
-- executor: the asynchronous executor.
pub mod Async
pub mod Classifier
pub mod RequestId
pub mod Json
pub mod Api
pub mod Service
pub mod Tests
