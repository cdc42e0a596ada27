-- ===== src/Phone.antt =====
-- src/rcrpc and src/rcrpc-client: the procedures of the modem and of voice over IP, on both sides of
-- a connection.
pub mod Modem
pub mod Voip
pub mod Login
