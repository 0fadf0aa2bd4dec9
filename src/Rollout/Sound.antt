-- ===== src/Rollout/Sound.antt =====
-- Every audit record that the coordinator builds is one that its own validator accepts.
pub mod Transitions
pub mod Pass
pub mod Loop
pub mod Coverage
pub mod Population
pub mod Reasons
pub mod Valid
pub mod Stops
pub mod Whole
pub mod Planned
