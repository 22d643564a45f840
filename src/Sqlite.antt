-- ===== src/Sqlite.antt =====
-- fuse_sqlite3/: the file system on a database, whose questions to it are SQL texts.
pub mod Database
pub mod State
pub mod Number
pub mod Statements
pub mod File
pub mod Tag
pub mod UserPath
pub mod Descriptor
pub mod TagDb
pub mod TagFs
pub mod Query
pub mod Listing
pub mod Links
pub mod Valid
pub mod Serving
pub mod Examples
