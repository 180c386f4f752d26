-- ===== src/Snoop.antt =====
-- opensnoop/opensnoop.c, function by function.
pub mod Number
pub mod Cpus
pub mod Args
pub mod Report
pub mod Program
pub mod Main
pub mod Whole
pub mod Genuine
