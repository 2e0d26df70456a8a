-- ===== src/Memory.antt =====
-- src/eden/memory: what the program remembers, how it forgets, and how it recalls.
pub mod Records
pub mod ShortTerm
pub mod Search
pub mod Stored
pub mod Repository
pub mod Conversation
pub mod Facts
mod Examples
mod FactExamples
