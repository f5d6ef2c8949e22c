-- ===== src/Shared.antt =====
-- The library `bcmd_shared` (shared/): results, string helpers, identifiers.
pub mod Outcome
pub mod StringUtils
pub mod Ids
pub mod Logging
