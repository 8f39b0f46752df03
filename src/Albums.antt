-- ===== src/Albums.antt =====
-- src/estateflow/services/media_buffer.py: the messages of an album, which Telegram sends one by one,
-- are held back until no more of them come, and published as one event.
pub mod Canonical
pub mod Buffer
pub mod Whole
pub mod Groups
pub mod Sound
pub mod Kept
mod Examples
