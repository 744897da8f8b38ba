-- ===== src/Startup.antt =====
-- engine.c, plugin.c and an engine at work together: the first use of the library.
pub mod Tables
pub mod Loads
pub mod Opening
