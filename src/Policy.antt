-- ===== src/Policy.antt =====
-- focus-core/src/policy.rs: the policy engine, a module for each of its concerns.
pub mod Matching
pub mod Schedule
pub mod Activity
pub mod Usage
pub mod Evaluate
pub mod Unlock
pub mod Metering
