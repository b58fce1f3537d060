-- ===== src/Management.antt =====
-- The management of the data centre.
pub mod Requests
pub mod Machines
pub mod Tenants
pub mod DataCenter
pub mod Allocation
pub mod MachineRequest
