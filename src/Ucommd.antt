-- ===== src/Ucommd.antt =====
-- The statistics library of src/ucommd: counters in shared memory, and who owns which of them.
pub mod Stat
pub mod Shm
pub mod Perf
pub mod VTopo
