-- ===== src/StateStore.antt =====
-- The store of the comments' states:
-- packaging/revue_core/src/revue_core/comments/state_store.py, with the types of comments/models.py.
-- The file's content is the state; `str` of a number is a parameter.
pub mod Operations
pub mod View
pub mod Refinement
mod Examples
