-- ===== src/Command.antt =====
-- cmd: the command line of the program, and what it starts.
pub mod Flags
pub mod Program
