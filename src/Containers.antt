-- ===== src/Containers.antt =====
-- The standard containers as the server uses them: std::unordered_map keyed by strings and
-- std::unordered_set of identifiers. Neither has an order that the code may rely on; here the
-- order is that of insertion.
pub mod Map
pub mod IdSet
