-- ===== src/Locations.antt =====
-- packages/backend/src/locations: places that nodes are assigned to.
pub mod Service
pub mod References
