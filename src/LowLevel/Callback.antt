-- ===== src/LowLevel/Callback.antt =====
-- fuse_lowlevel/fuse_callback.c: the handlers of the requests.
pub mod Answer
pub mod Attr
pub mod Content
pub mod Dir
pub mod Making
pub mod Linking
pub mod Table
pub mod Reading
pub mod Faults
pub mod Relations
pub mod Renaming
pub mod Creating
