-- ===== src/Snoop/Main.antt =====
-- `main` of opensnoop/opensnoop.c, behind `parseArgs`: the setup, the loop and the cleanup. The
-- libraries (libbpf, the C library, the kernel) answer by the fields of `Replies`, which are arbitrary.
pub mod State
pub mod Release
pub mod Lines
pub mod Setup
pub mod Poll
