-- ===== src/Registry/Ends.antt =====
-- The two ends of a spawn record: what the server of src/goldnet_multiplayer.cpp writes and what its
-- client makes of it.
pub mod Promotion
pub mod Adoption
pub mod Agreement
