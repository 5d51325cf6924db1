-- ===== src/TaskQueue.antt =====
-- task_queue: the queues by which the API hands work to the background workers.
pub mod Inspect
pub mod Persist
pub mod Local
