-- ===== src/Names.antt =====
-- bin/utils.c: the words that the client's commands accept and print.
pub mod Tables
pub mod Lookup
