-- ===== src/Hardware.antt =====
-- src/eden/hardware: the devices, the fleet, and the handler through which alone they are driven.
pub mod Device
pub mod Fleet
pub mod Handler
mod Examples
