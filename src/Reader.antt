-- ===== src/Reader.antt =====
-- libs/log_reader: reading the files of a channel back.
pub mod IfStream
pub mod FileReader
pub mod IndexFile
pub mod DataFile
pub mod StreamReader
pub mod Slices
pub mod Entries
pub mod Records
pub mod Linked
pub mod Fixed
pub mod Open
pub mod FixedOpen
