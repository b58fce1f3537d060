-- ===== src/Users.antt =====
-- The users of the cloud: the queues of their jobs.
pub mod JobQueue
pub mod Queues
pub mod ContainerQueue
