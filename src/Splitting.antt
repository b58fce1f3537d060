-- ===== src/Splitting.antt =====
-- The splitting message systems (Base/Messages/SMS): requests that are cut into subrequests, and
-- the strategies that cut them.
pub mod Message
pub mod Request
pub mod System
pub mod Pieces
pub mod MainMemory
pub mod Nfs
pub mod Pfs
