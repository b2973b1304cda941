-- ===== src/Hexbus.antt =====
-- hexbus/sw/hexbus.h and hexbus/sw/hexbus.cpp: HEXBUS, the master of the debugging bus.
pub mod State
pub mod Link
pub mod Buffer
pub mod Closing
pub mod Receive
pub mod Transfer
pub mod Target
