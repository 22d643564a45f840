-- ===== src/Cutil.antt =====
-- The utility library of the program (cutil/), and the functions of the C library that it calls.
pub mod HashTable
pub mod Libc
pub mod String2
pub mod CList
mod Examples
