-- ===== src/Examples.antt =====
-- The theorems at concrete inputs, and tests of the definitions on them.
mod Irq
mod Server
mod Net
mod Cli
mod Names
mod Gpio
mod Devices
mod Commands
mod Create
mod Client
mod Phone
mod Media
mod Dump
mod Program
mod Tasks
mod Session
