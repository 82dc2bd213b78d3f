-- ===== src/Stdlib.antt =====
-- The user library of programs/stdlib/src: numbers as text, formatted output, tokens and command
-- lines.
pub mod Command
pub mod Itoa
pub mod Printf
pub mod Strtok
mod Tests
