-- ===== src/Dedup.antt =====
-- src/estateflow/services/post_ai_dedup.py: the scoring of duplicates, the repository of the
-- announcements with their parents, the review queue, and the processor of new announcements.
mod Scoring
mod Repository
mod Review
mod Processor
unfoldable pub use Scoring.*
unfoldable pub use Repository.*
unfoldable pub use Review.*
unfoldable pub use Processor.*
pub mod Anchors
pub mod Best
pub mod Links
pub mod Relink
pub mod Complete
pub mod Actions
pub mod Replay
pub mod Examples
