-- ===== src/Match.antt =====
-- The package src/coldwatch/match.
pub mod Sequence
pub mod Tx
pub mod Block
pub mod Keys
pub mod Index
pub mod Provisional
pub mod Matcher
pub mod Stream
pub mod Samples
