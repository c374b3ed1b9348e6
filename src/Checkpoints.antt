-- ===== src/Checkpoints.antt =====
-- Checkpoints: plenum/server/consensus/checkpoint_service_msg_validator.py and checkpoint_service.py
-- beside it.
pub mod Validator
pub mod Service
pub mod Handlers
pub mod Stable
pub mod Votes
mod Tests
