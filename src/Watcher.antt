-- ===== src/Watcher.antt =====
-- vcs/workers/local/local_watcher.py: the watch jobs, their reconciliation and the debounce.
pub mod Jobs
pub mod Views
pub mod Observed
pub mod Reconcile
pub mod Stray
pub mod Formatter
pub mod Debounce
