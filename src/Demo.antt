-- ===== src/Demo.antt =====
-- Motes/demo: the three motes of the demonstration, each of which joins what several firmwares do.
pub mod Mote1
pub mod Mote2
pub mod Mote3
