-- ===== src/TerminalState.antt =====
-- The terminal states of a reviewer's turn:
-- packaging/revue_core/src/revue_core/core/terminal_state.py, and the codes of
-- core/finding_schema.py. The JSON parser, `str` and `repr` of values are parameters.
pub mod Json
pub mod Classify
pub mod Closed
pub mod Earned
mod Examples
