-- ===== src/Net.antt =====
-- src/rcrpc/net.c: the UDP channels, the hardware address, and the remote procedures on them.
pub mod Channels
pub mod Lifecycle
pub mod Transfer
pub mod Wait
pub mod Hwaddr
