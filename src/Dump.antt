-- ===== src/Dump.antt =====
-- bin/utils.c: print_hex_dump.
pub mod Hex
pub mod Rows
pub mod ReadBack
