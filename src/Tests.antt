-- ===== src/Tests.antt =====
-- Concrete hosts, observers and files, and the theorems at concrete inputs.
pub mod Worlds
mod Events
mod Watches
mod Scopes
mod Versions
mod Mirrors
mod Histories
mod Rollbacks
mod Daemons
mod Tools
mod Archives
mod Requests
mod Startups
mod Creations
mod Autostarts
mod Sources
mod Configs
