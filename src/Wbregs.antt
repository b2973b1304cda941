-- ===== src/Wbregs.antt =====
-- sw/wbregs.cpp: the program that reads or writes one word of the bus.
pub mod Usage
pub mod Options
pub mod Access
