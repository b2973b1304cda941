-- ===== src/Bench.antt =====
-- bench/cpp: the test bench around the simulated design, and the automatic test.
pub mod Testb
pub mod Simulation
pub mod Autotest
pub mod Response
pub mod Processes
