-- ===== src/Sqlite/Serving/Contents.antt =====
-- Reading, writing and ioctl of fuse_sqlite3/, on any valid store.
use tag_filesystem.Base.Store.{◌>>=◌, pure}
use tag_filesystem.Base.{
  ℕ, ◌-◌, refl, ◌||◌, Option, none, some, [], ◌++◌, Bytes, ℤ, pos, neg, ◌==◌, length, replicate,
  Option-cases, inl, inr,
}
use tag_filesystem.Cutil.HashTable.{Ptr, Uthash, ht_get_entry}
use tag_filesystem.Fuse.Os.{Os, Result, done, failed}
use tag_filesystem.Fuse.TagFs.Attr.{strncpy}
use tag_filesystem.Fuse.TagFs.Content.{bufsize, TagIoctl, put_byte, tag_ioc_read_tags, is_compat}
use tag_filesystem.Sqlite.Database.{Sqlite}
use tag_filesystem.Sqlite.Descriptor.{fd_read, fd_write}
use tag_filesystem.Sqlite.File.{file_get, file_get_tags_string}
use tag_filesystem.Sqlite.Links.{TagFile}
use tag_filesystem.Sqlite.Serving.Descriptors.{load_fd-any}
use tag_filesystem.Sqlite.Serving.Outside.{Goes-world}
use tag_filesystem.Sqlite.Serving.Steps.{
  Safe, Safe-bind, Safe-if, Safe-mono, Goes, Goes-refl, Goes-trans,
}
use tag_filesystem.Sqlite.State.{Fs, Cmd, load_fd, syscall}
use tag_filesystem.Sqlite.Tag.{tag_db_dump}
use tag_filesystem.Sqlite.TagFs.Content.{
  read_tag_file, tag_read, tag_write, fill_ioctl, ioctl_read_tags, tag_ioctl,
}
use tag_filesystem.Sqlite.Valid.{IsValid}

module _ ⦃U : Uthash⦄ ⦃O : Os⦄ ⦃Q : Sqlite⦄ ⦃T : TagFile⦄ where
  -- a call of the operating system, and what is done with its result
  syscall-any :
      {A B : Type 0} (f : O.World → A × O.World) (k : A → Cmd B) (s : Fs)
      → IsValid s
      → ((a : A) (s' : Fs) → IsValid s' → Safe (k a s') (λ _ s''. Goes 0 s' s''))
      → Safe ((syscall f >>= k) s) (λ _ s'. Goes 0 s s')
  syscall-any f k s valid later =
      let g = Goes-world s (f s.world).1 valid in
      Safe-mono (later (f s.world).0 _ g.valid) λ _ s' h. Goes-trans 0 0 g h

  -- the ends of `fd_read` and `fd_write`
  abbrev bytes_read : ℕ → Result Bytes → Cmd (ℤ × Bytes)
  bytes_read len r = elim r [
    | failed e ↦ pure (neg e, [])
    | done bytes ↦ pure (pos (length bytes), bytes ++ replicate (len - length bytes) 0)
  ]

  bytes_read-any :
      (len : ℕ) (r : Result Bytes) (s : Fs)
      → IsValid s
      → Safe (bytes_read len r s) (λ _ s'. Goes 0 s s')
  bytes_read-any len (done bytes) s valid = inr (_, _, refl, Goes-refl s valid)
  bytes_read-any len (failed e) s valid = inr (_, _, refl, Goes-refl s valid)

  abbrev read_sought : ℕ → ℕ → Result (Unit {0}) → Cmd (ℤ × Bytes)
  read_sought fh len sought = elim sought [
    | failed e ↦ pure (neg e, [])
    | done _ ↦ do r ← syscall (λ w. O.read w fh len); bytes_read len r
  ]

  read_sought-any :
      (fh len : ℕ) (sought : Result (Unit {0})) (s : Fs)
      → IsValid s
      → Safe (read_sought fh len sought s) (λ _ s'. Goes 0 s s')
  read_sought-any fh len (failed e) s valid = inr (_, _, refl, Goes-refl s valid)
  read_sought-any fh len (done u) s valid =
      syscall-any (λ w. O.read w fh len) (bytes_read len) s valid
        λ r s' valid'. bytes_read-any len r s' valid'

  fd_read-any :
      (fh : Option ℕ) (len off : ℕ) (s : Fs)
      → IsValid s
      → Safe (fd_read fh len off s) (λ _ s'. Goes 0 s s')
  unfolding fd_read
  fd_read-any none len off s valid = inr (_, _, refl, Goes-refl s valid)
  fd_read-any (some fh) len off s valid =
      syscall-any (λ w. O.lseek w fh off) (read_sought fh len) s valid
        λ r s' valid'. read_sought-any fh len r s' valid'

  pub tag_read-any :
      (s : Fs) (fh : Ptr) (len off : ℕ)
      → IsValid s
      → Safe (tag_read fh len off s) (λ _ s'. Goes 0 s s')
  unfolding tag_read read_tag_file tag_db_dump
  tag_read-any s fh len off valid = Safe-bind (load_fd fh) _ s (load_fd-any s fh) λ d s0 same.
      rw same (
        Safe-if d.is_tag_file _ _ s (inr (_, _, refl, Goes-refl s valid))
          (fd_read-any d.fh len off s valid))

  abbrev bytes_written : Result ℕ → Cmd ℤ
  bytes_written r = elim r [ failed e ↦ pure (neg e) | done n ↦ pure (pos n) ]

  bytes_written-any :
      (r : Result ℕ) (s : Fs) → IsValid s → Safe (bytes_written r s) (λ _ s'. Goes 0 s s')
  bytes_written-any (done n) s valid = inr (_, _, refl, Goes-refl s valid)
  bytes_written-any (failed e) s valid = inr (_, _, refl, Goes-refl s valid)

  abbrev write_sought : ℕ → Bytes → Result (Unit {0}) → Cmd ℤ
  write_sought fh buffer sought = elim sought [
    | failed e ↦ pure (neg e)
    | done _ ↦ do r ← syscall (λ w. O.write w fh buffer); bytes_written r
  ]

  write_sought-any :
      (fh : ℕ) (buffer : Bytes) (sought : Result (Unit {0})) (s : Fs)
      → IsValid s
      → Safe (write_sought fh buffer sought s) (λ _ s'. Goes 0 s s')
  write_sought-any fh buffer (failed e) s valid = inr (_, _, refl, Goes-refl s valid)
  write_sought-any fh buffer (done u) s valid =
      syscall-any (λ w. O.write w fh buffer) bytes_written s valid bytes_written-any

  fd_write-any :
      (fh : Option ℕ) (buffer : Bytes) (off : ℕ) (s : Fs)
      → IsValid s
      → Safe (fd_write fh buffer off s) (λ _ s'. Goes 0 s s')
  unfolding fd_write
  fd_write-any none buffer off s valid = inr (_, _, refl, Goes-refl s valid)
  fd_write-any (some fh) buffer off s valid =
      syscall-any (λ w. O.lseek w fh off) (write_sought fh buffer) s valid
        (write_sought-any fh buffer)

  pub tag_write-any :
      (s : Fs) (fh : Ptr) (buffer : Bytes) (off : ℕ)
      → IsValid s
      → Safe (tag_write fh buffer off s) (λ _ s'. Goes 0 s s')
  unfolding tag_write
  tag_write-any s fh buffer off valid = Safe-bind (load_fd fh) _ s (load_fd-any s fh) λ d s0 same.
      rw same (
        Safe-if d.is_tag_file _ _ s (inr (_, _, refl, Goes-refl s valid))
          (fd_write-any d.fh buffer off s valid))

  fill_ioctl-any :
      (str : Bytes) (len : ℕ) (arg : TagIoctl) (s : Fs)
      → IsValid s
      → Safe (fill_ioctl str len arg s) (λ _ s'. Goes 0 s s')
  unfolding fill_ioctl put_byte strncpy
  fill_ioctl-any str len arg s valid =
      elim (Option-cases (put_byte (strncpy str bufsize) bufsize 0)) [
        | inl e ↦ inl (rw e refl)
        | inr (buf, e) ↦ rw e (inr (_, _, refl, Goes-refl s valid))
      ]

  ioctl_read_tags-any :
      (fh : Ptr) (len : ℕ) (arg : TagIoctl) (s : Fs)
      → IsValid s
      → Safe (ioctl_read_tags fh len arg s) (λ _ s'. Goes 0 s s')
  unfolding ioctl_read_tags file_get file_get_tags_string
  ioctl_read_tags-any fh len arg s valid =
      Safe-bind (load_fd fh) _ s (load_fd-any s fh) λ d s0 same.
        rw same (elim (Option-cases (ht_get_entry s.files d.path.filename)) [
          | inl e ↦ rw (e, ◌>>=◌) (inr (_, _, refl, Goes-refl s valid))
          | inr (q, e) ↦ rw (e, ◌>>=◌) (fill_ioctl-any [] len arg s valid)
        ])

  pub tag_ioctl-any :
      (s : Fs) (fh : Ptr) (cmd flags len : ℕ) (arg : TagIoctl)
      → IsValid s
      → Safe (tag_ioctl fh cmd flags len arg s) (λ _ s'. Goes 0 s s')
  unfolding tag_ioctl
  tag_ioctl-any s fh cmd flags len arg valid =
      Safe-bind (load_fd fh) _ s (load_fd-any s fh) λ d s0 same. rw same (
        Safe-if (d.is_tag || d.is_tag_file) _ _ s (inr (_, _, refl, Goes-refl s valid)) (
          Safe-if (is_compat flags) _ _ s (inr (_, _, refl, Goes-refl s valid)) (
            Safe-if (cmd == tag_ioc_read_tags) _ _ s (ioctl_read_tags-any fh len arg s valid)
              (inr (_, _, refl, Goes-refl s valid)))))
