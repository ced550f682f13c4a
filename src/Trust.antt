-- ===== src/Trust.antt =====
-- The signed metadata of a registry: nlohmann::json as it is used, and the parts of
-- PafioSecurity/TufVerifier.cpp.
pub mod Json
pub mod Outcomes
pub mod Time
pub mod CanonicalJson
pub mod Fields
pub mod Roles
pub mod Chain
pub mod Registry
pub mod Quorum
pub mod Attested
pub mod Accepted
