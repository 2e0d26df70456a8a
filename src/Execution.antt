-- ===== src/Execution.antt =====
-- src/eden/execution: the only path from an intent to an effect.
pub mod Types
pub mod Permissions
pub mod Verification
pub mod Engine
pub mod Handlers
pub mod Journal
pub mod Samples
mod Examples
mod PolicyExamples
mod JournalExamples
mod HandlerExamples
