-- ===== src/Hello.antt =====
-- The hello-world probe: the program and its loader, c/load-bpf.c, and src/lib.rs.
pub mod Program
pub mod Loader
