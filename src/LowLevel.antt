-- ===== src/LowLevel.antt =====
-- fuse_lowlevel/: the same file system on the inode interface of libfuse. A handler answers its
-- request by a call of libfuse, and the model keeps the list of these answers.
pub mod Os
pub mod State
pub mod Inode
pub mod Tag
pub mod File
pub mod FileDescriptor
pub mod Real
pub mod Callback
pub mod Numbers
pub mod View
pub mod Linking
pub mod Listing
pub mod Inodes
pub mod Answering
mod Examples
