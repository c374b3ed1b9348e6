-- ===== src/Ordering.antt =====
-- The ordering service: of plenum/server/consensus the validator of its messages.
pub mod Validator
