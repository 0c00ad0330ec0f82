-- ===== src/Poster.antt =====
-- The posting of a review: packaging/revue_core/src/revue_core/comments/poster.py, with the store of
-- comments/json_store.py and the fingerprints of comments/fingerprint.py.
pub mod Fingerprint
pub mod Store
pub mod Fields
pub mod World
pub mod Collect
pub mod Run
pub mod Review
pub mod Anchors
pub mod Opened
pub mod Attempts
pub mod Seen
pub mod Kept
pub mod Repost
pub mod Calls
mod Examples
