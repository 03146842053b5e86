-- ===== src/Malloc.antt =====
-- The malloc laboratory of assignment-3: the simulated memory system, the naive allocation
-- package and the driver that checks a package against a trace of requests.
pub mod Memlib
pub mod Package
pub mod Mm
pub mod Ranges
pub mod Driver
pub mod Util
pub mod Speed
pub mod Trace
pub mod Main
mod Tests
