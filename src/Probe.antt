-- ===== src/Probe.antt =====
-- The two probes of opensnoop: their C source in opensnoop/opensnoop.py, the bytecode that is
-- generated from it, and the records that they write.
pub mod Layout
pub mod Source
pub mod Bytecode
pub mod Entry
pub mod Return
pub mod Session
