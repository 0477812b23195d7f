-- ===== src/Storage.antt =====
-- The package src/coldwatch/storage: the tables, and the methods of the store over them.
pub mod Rows
pub mod Tables
pub mod Coins
pub mod Store
pub mod Alarm
