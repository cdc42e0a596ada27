-- ===== src/Gpio.antt =====
-- src/rcrpc/io.c and src/rcrpc-client/gpio.c: pins as the bits of a mask, on both sides.
pub mod Server
pub mod Client
pub mod Pins
