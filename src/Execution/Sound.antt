-- ===== src/Execution/Sound.antt =====
-- Every record that the lifecycle builds for a valid plan is one that its own validator accepts.
pub mod Records
pub mod CiscoPath
pub mod JunosPath
pub mod Admitted
pub mod Prepared
pub mod Whole
