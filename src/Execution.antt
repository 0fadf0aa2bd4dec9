-- ===== src/Execution.antt =====
-- src/network_change_delivery/profiled_execution.py: the lifecycle of one approved plan.
pub mod Record
pub mod Stages
pub mod Preflight
pub mod Cisco
pub mod Junos
pub mod Lifecycle
pub mod Guards
pub mod Writes
pub mod JunosWrites
pub mod Scenarios
pub mod Sound
