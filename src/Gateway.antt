-- ===== src/Gateway.antt =====
-- src/eden/gateway: the providers' health, and the choice among them.
pub mod Health
pub mod Routing
mod HealthExamples
mod RoutingExamples
