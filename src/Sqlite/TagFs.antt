-- ===== src/Sqlite/TagFs.antt =====
-- fuse_sqlite3/tagfs.c: the operations that libfuse calls.
pub mod Attr
pub mod Tagging
pub mod Dir
pub mod Content
