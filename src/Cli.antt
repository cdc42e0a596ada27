-- ===== src/Cli.antt =====
-- bin/main.c and bin/utils.c: the command line of the client.
pub mod Shell
pub mod Split
pub mod Fill
pub mod Words
pub mod Task
pub mod RoundTrip
pub mod Exec
pub mod Completion
pub mod Program
pub mod Options
pub mod Lifecycle
pub mod Input
pub mod Arguments
