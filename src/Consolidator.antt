-- ===== src/Consolidator.antt =====
-- The consolidation of the agents' findings:
-- packaging/revue_core/src/revue_core/comments/consolidator.py.
pub mod Findings
pub mod Grouping
pub mod Vote
pub mod Fallback
pub mod Chain
mod Examples
