-- ===== src/Shell.antt =====
-- src/shell: the arguments of the program.
pub mod ArgumentRegistry
pub mod Options
pub mod ArgumentParser
pub mod Databases
