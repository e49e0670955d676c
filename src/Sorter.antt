-- ===== src/Sorter.antt =====
-- The sort of streams in internal/stremio/transformer/stream_sorter.go: the rank of a stream in each field,
-- the sort configuration, and the order that it gives.
pub mod Rank
pub mod Config
pub mod Stable
pub mod Sorted
pub mod Order
pub mod Ordered
pub mod Examples
