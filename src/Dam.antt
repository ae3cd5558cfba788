-- ===== src/Dam.antt =====
-- The sensors of one dam (Motes/firmwares and Motes/demo) on the topic `simulation`: each device gets
-- the same messages, in the same order, at any time between its own events.
pub mod Listener
pub mod Flow
pub mod Water
pub mod Agreement
pub mod Settling
pub mod Motes
