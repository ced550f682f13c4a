-- ===== src/Registry.antt =====
-- The registry parts of the program: the security policy of registry roots and object paths.
pub mod Paths
pub mod Security
pub mod Archive
