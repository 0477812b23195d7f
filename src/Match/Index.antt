-- ===== src/Match/Index.antt =====
-- match/matcher.py: `WatchIndex`, the lookups and mutations that the matching loop needs, and its
-- dictionary implementation, `InMemoryWatchIndex`.
pub mod Items
pub mod Contract
pub mod Memory
