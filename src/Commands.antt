-- ===== src/Commands.antt =====
-- cmd: the processes of the program, as far as they are more than wiring.
pub mod Consumer
pub mod Server
pub mod Bench
