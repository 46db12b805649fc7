-- ===== src/Resource.antt =====
-- timing/cp/internal/resource: what a compute unit has left for work-groups.
pub mod Mask
pub mod Cu
pub mod Pool
mod Examples
