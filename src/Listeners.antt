-- ===== src/Listeners.antt =====
-- src/estateflow/services/listener_pool.py: the accounts that read Telegram, the sources that each
-- of them reads, and the service that assigns them.
pub mod Health
pub mod Assignments
pub mod Pool
pub mod Monitor
mod Release
mod Assign
pub mod Wanted
pub mod Served
pub mod Stranded
pub mod Runs
mod Frame
pub mod Banned
mod Examples
