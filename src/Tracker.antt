-- ===== src/Tracker.antt =====
-- The prior-comment tracker: packaging/revue_core/src/revue_core/comments/hunk_tracker.py.
pub mod States
pub mod Sentinel
pub mod Exec
pub mod Run
pub mod Legality
pub mod RoundTrip
pub mod Calls
pub mod Raises
pub mod NextRun
pub mod Prior
pub mod Merged
mod Examples
