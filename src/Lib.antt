-- ===== src/Lib.antt =====
-- A verification of rust-ebpf-demo: `opensnoop`, which reports every call of open() on a machine by two
-- BPF programs, and the hello-world probe.
--
-- The program's parts. opensnoop/opensnoop.py holds the C text of two probes: `trace_entry` runs when
-- `do_sys_open` is entered and puts the file name's address into a map under the id of the thread;
-- `trace_return` runs when it returns, takes the entry out of the map and hands an event over to a perf
-- buffer. The text is compiled to opensnoop/generated_bytecode.h, functions that fill an array with BPF
-- instructions. opensnoop/opensnoop.c parses the options, reads the list of processors, creates the maps,
-- fills the arrays, loads and attaches the programs, opens a perf buffer for each processor, and polls
-- them; a callback prints a line for each event. opensnoop/opensnoop.h has the two records that the probes
-- and the callback share. c/load-bpf.c loads the bytecode of a probe that prints a line, and src/lib.rs has
-- that probe in Rust. opensnoop/debug.py turns bytecode into the functions of the header, and
-- opensnoop/uname_test.c prints the numbers of the kernel's release.
--
-- Which file models which part:
--   Prelude  the names that all share: tests, lists, integers, bytes.
--   Bpf      Insn: `struct bpf_insn` (quoted in c/write_bpf_insn.c). Encode: its eight bytes, as
--            c/write_bpf_insn.c writes and parse_instruction of opensnoop/debug.py reads them. Slots: the
--            instructions next to their eight bytes, as two types. Kernel: the kernel's helpers as an
--            interface, which is a parameter everywhere. Machine: registers and the stack. Vm: the
--            opcodes that occur, with the refusals of the kernel's verifier as faults. Bits: shifts and
--            masks.
--   Clib     what the C library gives: Words (conversions to int), Strtol (base 10), Prefixed (strtol with
--            base 0), Decimal and Printf (%d, widths), Text (strings, snprintf, strstr).
--   Probe    Layout: opensnoop/opensnoop.h. Source: the C text of opensnoop/opensnoop.py, with `FILTER`
--            as a parameter. Bytecode: opensnoop/generated_bytecode.h, instruction by instruction. Entry
--            and Return: the bytecode against the text. Session: what the helpers do, by their manual,
--            the two probes one after the other (Whole, Silent), what they mean together as a table of
--            the calls that are pending and a log (Calls), and any tasks in any order against it (Agrees,
--            Interleave).
--   Snoop    opensnoop/opensnoop.c. Number: parseNonNegativeInteger. Cpus: getOnlineCpus. Args: the
--            options and parseArgs. Report: printHeader and perf_reader_raw_callback (Text: the bytes
--            that are printed). Program: the arrays that main fills and loads, and what they do together,
--            in a row (Session), in any order (Interleave) and up to the line that is printed (Printed).
--            Tasks share the map, and a call of open() that finds it full is one of its own kind (`refused`
--            in Probe/Session/Calls), which leaves no event. Main: main from parseArgs on, whose state is
--            the record of its variables with the calls and the lines printed so far; a step goes on,
--            jumps to `error`, or does what C leaves undefined (State, Setup, Release, Poll; how the setup
--            ends in Setup/Granted, Readers, Success, Sparse, Ascending, Failure and Refused, how
--            the loop ends in Poll/Deadline, Output, Whole and Failed). Whole and Genuine: all of it
--            together with the tasks that call open().
--   Hello    Program: the bytecode of c/load-bpf.c and src/lib.rs. Loader: the functions of c/load-bpf.c
--            (Calls: what they hand to the system, Texts: what they write and read, Attach: their calls
--            if nothing fails, Exit: how they end).
--   Version  opensnoop/uname_test.c, which prints the numbers of the kernel's release.
--   Generator  generate_c_function of opensnoop/debug.py, which wrote opensnoop/generated_bytecode.h:
--            what a generated function does to an array (Meaning), the header (Header), the text that is
--            written (Text), and how C reads it: numbers (Read), initialisers by the names of their
--            members (Members), assignments (Assigns), a function (Back), and which immediate values the
--            parameters replace (Rebound). Print: print_bpf_insns, and print_bpf_insn_struct of
--            c/bpf_trace_printk.py. Listing: print_list_of_instructions.
--   Tests    and Snoop/Main/Setup/Tests: concrete inputs.
--
-- What is arbitrary: the kernel's helpers and its state (`Kernel`), the context of a probe (`arg`), what
-- stands in an array before it is filled, and the replies of libbpf, the clock and the system calls
-- (`Sysfs`, `Replies`). getopt_long is represented by the list of what it returns.
--
-- Fuel. A run of a BPF program is given as many steps as the program has instructions. Jumps go forward,
-- so that this is enough: the theorems on runs state the end of a run, which is never `out_of_fuel`.
-- The other loops are recursions on a list: the text that is scanned, the arguments, the
-- processors, the readers, and, for the loop that polls, the rounds that are looked at.
--
-- Not modelled: what errno adds to a message, what `%-14.9f` prints of a time divided by a float (a
-- parameter; a line carries the nanoseconds), the compilation of the bytecode by bcc, the calls of bcc and
-- gobpf in the Python and Go files, and the shell files.
pub mod Prelude
pub mod Bpf
pub mod Clib
pub mod Probe
pub mod Hello
pub mod Version
pub mod Generator
pub mod Snoop
pub mod Tests
