-- ===== src/Torznab.antt =====
-- The Torznab interface of internal/torznab: its categories, and the query of a search in a url.
pub mod Category
pub mod Query
pub mod ParseQuery
pub mod Stages
pub mod RoundTrip
pub mod Accept
pub mod Parents
pub mod Examples
