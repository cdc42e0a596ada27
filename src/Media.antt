-- ===== src/Media.antt =====
-- src/rcrpc and src/rcrpc-client: the procedures of the media player, of sound and of the tuner, on
-- both sides of a connection.
pub mod Player
pub mod Sound
pub mod View
