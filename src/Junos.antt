-- ===== src/Junos.antt =====
-- network_change_delivery/junos_adapter.py: the transaction on an exclusive candidate and the
-- confirmation of a pending commit. PyEZ's `Config` object, the connection and the NETCONF session are
-- the parameter `Candidate`; nothing is assumed of their answers.
pub mod Diff
pub mod Link
pub mod Transaction
pub mod Confirm
pub mod Inside
pub mod Discipline
mod Scenarios
