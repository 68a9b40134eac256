-- ===== src/Consumers.antt =====
-- What the worker threads do with an event: LocalConsumer of vcs/workers/local/local_consumer.py
-- and ConfigConsumer of vcs/workers/config/config_consumer.py.
pub mod Local
pub mod Config
pub mod Retry
pub mod Uncovered
