-- ===== src/Query.antt =====
-- query/query.go: the query tree and its transformations.
pub mod Syntax
pub mod Map
pub mod Constants
pub mod Flatten
pub mod Meaning
pub mod Simplify
pub mod Expand
pub mod Proto
mod Examples
