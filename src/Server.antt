-- ===== src/Server.antt =====
-- src/rcrpc/rcrpc.c: the RPC server as a source of the main loop.
pub mod Source
pub mod Invariant
pub mod Loop
pub mod Create
pub mod Release
