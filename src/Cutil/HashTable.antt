-- ===== src/Cutil/HashTable.antt =====
-- cutil/hash_table.c: string-keyed tables of pointers over the macros of uthash.h, which is another
-- project's library and stands here as the interface `Uthash`. The lock around each operation has
-- no effect in a single thread and is left out; `ht_create` is `Uthash.empty`.
mod Assoc
mod Interface
mod Operations
mod Laws
pub mod Instance
pub use Assoc.*
pub use Interface.*
unfoldable pub use Operations.*
pub use Laws.*
