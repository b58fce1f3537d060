-- ===== src/Memory.antt =====
-- The main memory of a node
-- (Architecture/NodeComponents/Hardware/Memories/MainMemories/RAMMemory_BlockModel).
pub mod Blocks
pub mod BlockModel
pub mod Account
