-- ===== src/Suggestions.antt =====
-- src/estateflow/services/source_suggestions.py: sources that users suggest and reviewers decide on.
pub mod Identifier
pub mod Stored
pub mod Service
mod Outcomes
mod Frame
pub mod Keys
mod Granted
pub mod Rewarded
mod Examples
