-- ===== src/Router.antt =====
-- The routing of a review: packaging/revue_core/src/revue_core/core/cleo_router.py. `str.lower` and
-- `fnmatch.fnmatch` are parameters, and so are the teams that `load_all_teams` returns.
pub mod Triggers
pub mod Teams
pub mod Signal
pub mod Security
pub mod Floor
pub mod Assigned
mod Examples
