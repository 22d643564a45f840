-- ===== src/Fuse/TagFs.antt =====
-- fuse/tagfs.c: the operations that libfuse calls, in groups.
pub mod Attr
pub mod Tagging
pub mod Dir
pub mod Content
pub mod Ioctl
pub mod Making
pub mod Getting
pub mod Starting
pub mod Listing
pub mod Renaming
