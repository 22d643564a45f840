-- ===== src/LowLevel/FileDescriptor.antt =====
-- fuse_lowlevel/file_descriptor.c: reads and writes of the real files by their descriptors.
use tag_filesystem.Base.Store.{pure, ◌>>=◌}
use tag_filesystem.Base.{ℕ, ◌-◌, [], ◌++◌, Bytes, ℤ, pos, neg, length, replicate}
use tag_filesystem.Cutil.HashTable.{Uthash}
use tag_filesystem.Fuse.Os.{Result, done, failed}
use tag_filesystem.LowLevel.Os.{Os}
use tag_filesystem.LowLevel.State.{Cmd, File, syscall}

module _ ⦃U : Uthash⦄ ⦃O : Os⦄ where
  -- `failed` is -1, with errno
  unfoldable pub file_open : File → ℕ → Cmd (Result ℕ)
  file_open f flags = syscall (λ w. O.open_file w f.realpath flags)

  -- the result, and the bytes of `buffer`: those behind what was read are zeroed
  unfoldable pub file_read : ℕ → ℕ → ℕ → Cmd (ℤ × Bytes)
  file_read fd len off = do
    sought ← syscall (λ w. O.lseek w fd off)
    elim sought [
      | failed e ↦ pure (neg e, [])
      | done _ ↦ do
        r ← syscall (λ w. O.read w fd len)
        elim r [
          | failed e ↦ pure (neg e, [])
          | done bytes ↦ pure (pos (length bytes), bytes ++ replicate (len - length bytes) 0)
        ]
    ]

  unfoldable pub file_write : ℕ → Bytes → ℕ → Cmd ℤ
  file_write fd buffer off = do
    sought ← syscall (λ w. O.lseek w fd off)
    elim sought [
      | failed e ↦ pure (neg e)
      | done _ ↦ do
        r ← syscall (λ w. O.write w fd buffer)
        elim r [ failed e ↦ pure (neg e) | done n ↦ pure (pos n) ]
    ]

  unfoldable pub file_close : ℕ → Cmd ℤ
  file_close fd = do
    r ← syscall (λ w. O.close w fd)
    elim r [ done _ ↦ pure (pos 0) | failed e ↦ pure (neg e) ]
