-- ===== src/Client.antt =====
-- src/rcrpc-client/rcrpc-client.c: the connection of the client library.
pub mod Connection
pub mod Release
pub mod Poll
pub mod Exit
