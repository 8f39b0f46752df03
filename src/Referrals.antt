-- ===== src/Referrals.antt =====
-- src/estateflow/services/referrals.py and the in-memory user repository of
-- src/estateflow/repositories/users.py: referral links between users, their activation and the
-- premium award. A datetime is a number of microseconds; the clock reading and a fresh UUID are
-- arguments, and the clock is read once for each call. Ids are positive, so `user_id <= 0` is 0.
mod Users
mod Service
mod Activation
pub mod Acyclic
pub mod Fuel
pub mod Counts
pub mod Awards
pub mod Examples
unfoldable pub use Users.*
unfoldable pub use Service.*
