-- ===== src/Bpf.antt =====
-- The BPF instruction set as the programs of the repository use it: instructions and their bytes
-- (c/write_bpf_insn.c, opensnoop/debug.py), the kernel's helpers as a parameter, and the machine.
pub mod Insn
pub mod Kernel
pub mod Bits
pub mod Encode
pub mod Machine
pub mod Vm
pub mod Slots
