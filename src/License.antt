-- ===== src/License.antt =====
-- License validation: packaging/revue_core/src/revue_core/core/license_validator.py.
pub mod Retry
pub mod Validate
pub mod Attempts
pub mod Answers
pub mod Grace
mod Examples
