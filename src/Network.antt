-- ===== src/Network.antt =====
-- The network manager's tables: Management/NetworkManager and the hypervisor's port cells.
pub mod PortTable
pub mod PortCell
pub mod VirtualIps
pub mod Manager
pub mod UserCell
pub mod Pat
pub mod Local
