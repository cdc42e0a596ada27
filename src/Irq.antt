-- ===== src/Irq.antt =====
-- src/rcrpc/irq.c: interrupts of the event manager, kept as a word of pending sources.
pub mod State
pub mod Handlers
pub mod Pending
pub mod Mask
pub mod Info
pub mod Trace
pub mod Io
