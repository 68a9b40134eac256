-- ===== src/Store.antt =====
-- vcs/services/git_store.py: the operations on one mirror repository, over the commands of git,
-- which are a parameter.
pub mod Commands
pub mod Operations
pub mod Logs
pub mod Parsed
pub mod Authors
pub mod Walk
pub mod Reset
pub mod Contents
pub mod Committed
pub mod Head
pub mod Calls
