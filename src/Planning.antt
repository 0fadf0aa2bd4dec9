-- ===== src/Planning.antt =====
-- src/network_change_delivery/profiled_planning.py: intents, plans, compliance records and the pure
-- checks of planning, and the planning over its providers. Times are numbers; the
-- digest of a plan or a record (SHA-256 over its canonical JSON) is the parameter `Hashing`.
mod Subject
mod Artifacts
pub mod Validator
pub mod Change
pub mod Observed
pub mod Sound
pub mod Concluded
pub mod Calls
pub mod Guarded
unfoldable pub use Subject.*
unfoldable pub use Artifacts.*
mod Scenarios
