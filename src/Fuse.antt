-- ===== src/Fuse.antt =====
-- The file system of the directory fuse/, over the high-level interface of libfuse.
pub mod Os
pub mod State
pub mod Util
pub mod File
pub mod Tag
pub mod UserPath
pub mod Descriptor
pub mod TagDb
pub mod TagFs
pub mod Valid
pub mod Examples
