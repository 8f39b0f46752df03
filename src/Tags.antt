-- ===== src/Tags.antt =====
-- src/estateflow/services/audience_tags.py: the tags for whom a flat is meant, which the extraction
-- proposes and reviewers approve, reject or merge.
pub mod Keys
pub mod Stored
pub mod Service
pub mod Merged
mod Single
pub mod Answer
pub mod Reached
pub mod Each
pub mod Given
pub mod Resolved
mod Examples
