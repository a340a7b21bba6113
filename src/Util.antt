-- ===== src/Util.antt =====
-- gdrpc/util.
pub mod TimeWheel
pub mod AsyncLog
pub mod LogFile
pub mod Logger
pub mod Timestamp
