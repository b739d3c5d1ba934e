-- ===== src/Leases.antt =====
-- src/sovereign_ai/resources: the durable leases on the GPU and on workspace roots.
pub mod Gpu
pub mod Workspace
