-- ===== src/Filter.antt =====
-- core/store/filter: matching stored values against conditions.
pub mod Operation
pub mod Condition
pub mod Parser
