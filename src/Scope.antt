-- ===== src/Scope.antt =====
-- sw/scopecls.h and sw/scopecls.cpp: SCOPE, the client that reads a logic analyser in the target.
pub mod Device
pub mod Trace
pub mod Vcd
pub mod Print
pub mod Control
