-- ===== src/Rollout.antt =====
-- network_change_delivery/profiled_rollout*.py: the rollout of one change over several devices.
pub mod Audit
pub mod Parent
pub mod Progress
pub mod Selection
pub mod Waves
pub mod Cohorts
pub mod Approved
pub mod Child
pub mod Coordinator
pub mod Reservation
pub mod Sound
mod Scenarios
mod Cases
