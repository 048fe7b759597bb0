-- ===== src/MatchTree.antt =====
-- index/matchtree.go: how a shard decides whether a document matches a query, cheap tests first.
pub mod Content
pub mod Leaf
pub mod Tree
pub mod Verdict
pub mod Value
pub mod Decide
pub mod Docs
pub mod Facts
pub mod Skip
pub mod Prepare
pub mod Search
pub mod Expected
pub mod Counts
pub mod Found
pub mod Visible
pub mod Complete
pub mod NoMatch
pub mod NgramDoc
mod Examples
