-- ===== src/Position.antt =====
-- Line positions in unified diffs: comments/position_adapter.py and core/diff_position_resolver.py
-- of packaging/revue_core/src/revue_core.
pub mod Hunk
pub mod Parsed
pub mod Classify
pub mod Adapter
pub mod Resolver
pub mod Agreement
pub mod Image
pub mod Anchoring
pub mod Params
pub mod Skips
mod Examples
