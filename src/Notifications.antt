-- ===== src/Notifications.antt =====
-- src/estateflow/services/notifications.py: notification jobs, their matching against saved filters
-- and their delivery by Telegram.
mod Jobs
mod Limiter
mod Worker
mod Matching
unfoldable pub use Jobs.*
unfoldable pub use Limiter.*
pub mod Ready
pub mod Index
pub mod Kept
pub mod Settled
pub mod Outcomes
pub mod Account
pub mod Once
pub mod Spacing
mod Counted
pub mod Batch
pub mod Callbacks
pub mod Examples
