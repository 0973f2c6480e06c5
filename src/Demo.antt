-- ===== src/Demo.antt =====
-- demos: two bench programs, a command line and a sweep over the duty of the lamp.
pub mod Cli
pub mod Sweep
