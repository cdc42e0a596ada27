-- ===== src/Commands.antt =====
-- bin/commands.c: the handlers of the client's commands, over the client library.
pub mod Numbers
pub mod Remote
pub mod Sound
pub mod Bounds
pub mod EndToEnd
pub mod IrqPoll
pub mod Gpio
pub mod GpioShown
pub mod IrqPolled
pub mod Lines
pub mod Player
pub mod Phone
pub mod Handset
pub mod Services
pub mod Dumped
pub mod PhoneShown
pub mod PlayerShown
pub mod Decimal
pub mod TasksShown
pub mod HandsetShown
pub mod Help
pub mod Info
pub mod MediaTable
pub mod PhoneTable
pub mod Table
pub mod Distinct
pub mod Dispatch
pub mod Session
pub mod Whole
