-- ===== src/Core.antt =====
-- src/eden/core: the registry of named factories.
pub mod Registry
pub mod Container
pub mod Kernel
mod Examples
mod ContainerExamples
mod KernelExamples
