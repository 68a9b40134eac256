-- ===== src/Bus.antt =====
-- vcs/workers/bus.py: topic patterns, subscriptions and the local event bus, with the mailboxes
-- of vcs/workers/local/local_queue.py.
pub mod Topic
pub mod Queue
pub mod Fanout
