-- ===== src/Services.antt =====
-- src/rcrpc and src/rcrpc-client: the procedures of tasks, of the card memory, of LLDP and of the
-- handset, on both sides of a connection, and the events.
pub mod Tasks
pub mod Memory
pub mod Handset
