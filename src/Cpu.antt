-- ===== src/Cpu.antt =====
-- The CPU schedulers of a node's operating system
-- (Architecture/NodeComponents/OperatingSystems/CPU_Schedulers).
pub mod Common
pub mod Fifo
pub mod RoundRobin
