-- ===== src/Workers.antt =====
-- src/workers: the pool of threads that evaluates patches off the main thread.
pub mod Pool
