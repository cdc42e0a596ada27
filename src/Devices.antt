-- ===== src/Devices.antt =====
-- src/rcrpc and src/rcrpc-client: the procedures of the audio, mixer, backlight and card devices, on
-- both sides of a connection.
pub mod Audio
pub mod Mixer
pub mod Panel
pub mod RoundTrip
