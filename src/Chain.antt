-- ===== src/Chain.antt =====
-- The state of the chain: internal/utilities/mmr, internal/utilities/shuffle,
-- internal/recent_history, internal/authorization and internal/safrole. A hash is its list of bytes.
pub mod Mmr
pub mod Tickets
pub mod Verifier
pub mod Shuffle
pub mod History
pub mod Pools
pub mod Safrole
pub mod Guarantors
pub mod Examples
