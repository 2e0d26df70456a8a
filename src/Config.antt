-- ===== src/Config.antt =====
-- src/eden/config: the sources and their merging, and the coercion of raw values.
pub mod Sources
mod Examples
