-- ===== src/Clib.antt =====
-- What the programs use of C: the conversion of integers, `strtol`,
-- `snprintf`, `%d` and `strstr`. A string is the
-- list of its bytes; a pointer into one is the part of the list that starts there.
pub mod Words
pub mod Strtol
pub mod Text
pub mod Decimal
pub mod Printf
pub mod Prefixed
