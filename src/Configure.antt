-- ===== src/Configure.antt =====
-- vcs/services/configure.py: the sources in config.yaml, the scope that they grant, and the
-- directories to watch for them.
pub mod Sources
pub mod Scope
pub mod Targets
pub mod Snapshot
pub mod Baseline
pub mod Grant
pub mod Stored
pub mod Canonical
pub mod Minimal
