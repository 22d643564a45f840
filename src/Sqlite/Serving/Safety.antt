-- ===== src/Sqlite/Serving/Safety.antt =====
-- The operations of the table of fuse_sqlite3/, and sequences of them, on any valid store.
use tag_filesystem.Base.{
  ℕ, ◌≡◌, Bool, true, false, ◌+◌, ◌^◌, ◌<◌, ◌≤◌, refl, List, [], ◌∷◌, arith, length, Bool-cases,
  inl, inr,
}
use tag_filesystem.Cutil.HashTable.{Uthash}
use tag_filesystem.Fuse.Os.{Os}
use tag_filesystem.Sqlite.Database.{Sqlite}
use tag_filesystem.Sqlite.Links.{TagFile}
use tag_filesystem.Sqlite.State.{invalid_tag, Fs}
use tag_filesystem.Sqlite.TagFs.Attr.{tag_getattr, tag_fgetattr, tag_open_file, tag_open_dir}
use tag_filesystem.Sqlite.Serving.Steps.{Safe, Safe-bind, Safe-mono}
use tag_filesystem.Sqlite.Serving.Outside.{
  tag_mknod-any, tag_truncate-any, tag_chmod-any, tag_chown-any, tag_utime-any,
}
use tag_filesystem.Sqlite.Serving.Descriptors.{
  tag_open_file-any, tag_open_dir-any, tag_release_generic-any, tag_fgetattr-any,
}
use tag_filesystem.Sqlite.Serving.Contents.{tag_read-any, tag_write-any, tag_ioctl-any}
use tag_filesystem.Sqlite.Serving.Directories.{tag_readdir-any}
use tag_filesystem.Sqlite.TagFs.Content.{tag_read, tag_ioctl}
use tag_filesystem.Sqlite.TagFs.Dir.{tag_readdir}
use tag_filesystem.Sqlite.Serving.{
  Call, getattr_call, link_call, unlink_call, rmdir_call, mkdir_call, rename_call, open_call,
  opendir_call, release_call, fgetattr_call, mknod_call, truncate_call, chmod_call, chown_call,
  utime_call, read_call, write_call, readdir_call, ioctl_call, handle, serve,
}
use tag_filesystem.Sqlite.Valid.{IsValid}
use tag_filesystem.Sqlite.Serving.Tagging.{
  Serves, HasRoom, Serves-Goes, serves, tag_link-any, tag_unlink-any, tag_rename-any,
  tag_getattr-any, tag_mkdir-any, tag_rmdir-any,
}

module _ ⦃U : Uthash⦄ ⦃O : Os⦄ ⦃Q : Sqlite⦄ ⦃T : TagFile⦄ where
  -- in every world, the root directory has at most so many entries
  abbrev pub HasAtMost : ℕ → Type 0
  HasAtMost most = (w : O.World) → length (O.readdir w) ≤ most

  abbrev is_readdir : Call → Bool
  is_readdir (readdir_call fuel fh) = true
  is_readdir _ = false

  Serves-le : (s s' : Fs) (j k : ℕ) → j ≤ k → Serves j s s' → Serves k s s'
  Serves-le s s' j k le (valid, (t, f, n)) = (valid, (omega arith, omega arith, omega arith))

  HasRoom-le : (s : Fs) (j k : ℕ) → j ≤ k → HasRoom k s → HasRoom j s
  HasRoom-le s j k le (t, f, n) = (omega arith, omega arith, omega arith)

  -- every entry of the table but readdir
  short-any :
      (c : Call) (s : Fs)
      → is_readdir c ≡ false
      → IsValid s
      → HasRoom 2 s
      → Safe (handle c s) (λ _ s'. Serves 2 s s')
  unfolding handle
  short-any (getattr_call path) s short valid room =
      Safe-bind (tag_getattr path) _ s (tag_getattr-any s path valid room)
        λ _ s' k. inr (_, _, refl, k)
  short-any (link_call from to) s short valid room = tag_link-any s from to valid room
  short-any (unlink_call path) s short valid room = tag_unlink-any s path valid
  short-any (rmdir_call path) s short valid room = tag_rmdir-any s path valid
  short-any (mkdir_call path) s short valid room = tag_mkdir-any s path valid room
  short-any (rename_call from to) s short valid room = tag_rename-any s from to valid room
  short-any (open_call path flags) s short valid room =
      Safe-bind (tag_open_file path flags) _ s (tag_open_file-any s path flags valid)
        λ _ s' g. inr (_, _, refl, Serves-Goes 1 (omega arith) g)
  short-any (opendir_call path flags) s short valid room =
      Safe-bind (tag_open_dir path flags) _ s (tag_open_dir-any s path flags valid)
        λ _ s' g. inr (_, _, refl, Serves-Goes 1 (omega arith) g)
  short-any (release_call fh) s short valid room = serves (tag_release_generic-any s fh valid)
  short-any (fgetattr_call fh) s short valid room =
      Safe-bind (tag_fgetattr fh) _ s (tag_fgetattr-any s fh valid (omega (arith, room.1)))
        λ _ s' g. inr (_, _, refl, Serves-Goes 1 (omega arith) g)
  short-any (mknod_call path mode device) s short valid room =
      serves (tag_mknod-any s path mode device valid)
  short-any (truncate_call path len) s short valid room = serves (tag_truncate-any s path len valid)
  short-any (chmod_call path mode) s short valid room = serves (tag_chmod-any s path mode valid)
  short-any (chown_call path user group) s short valid room =
      serves (tag_chown-any s path user group valid)
  short-any (utime_call path times) s short valid room = serves (tag_utime-any s path times valid)
  short-any (read_call fh len off) s short valid room =
      Safe-bind (tag_read fh len off) _ s (tag_read-any s fh len off valid)
        λ _ s' g. inr (_, _, refl, Serves-Goes 0 (omega arith) g)
  short-any (write_call fh buffer off) s short valid room =
      serves (tag_write-any s fh buffer off valid)
  short-any (ioctl_call fh cmd flags len arg) s short valid room =
      Safe-bind (tag_ioctl fh cmd flags len arg) _ s (tag_ioctl-any s fh cmd flags len arg valid)
        λ _ s' g. inr (_, _, refl, Serves-Goes 0 (omega arith) g)
  short-any (readdir_call fuel fh) s short valid room = absurd (ground arith)

  readdir-any :
      (most : ℕ) (c : Call) (s : Fs)
      → is_readdir c ≡ true
      → HasAtMost most
      → IsValid s
      → HasRoom (2 + most) s
      → Safe (handle c s) (λ _ s'. Serves (2 + most) s s')
  unfolding handle
  readdir-any most (readdir_call fuel fh) s listing bound valid (_, room, _) =
      Safe-bind (tag_readdir fuel fh []) _ s
        (tag_readdir-any s fuel fh [] most valid bound (omega arith))
        λ _ s' g. inr (_, _, refl, Serves-le s s' most (2 + most) (omega arith) (g.valid, g.few))
  readdir-any most (getattr_call path) s listing bound valid room = absurd (ground arith)
  readdir-any most (link_call from to) s listing bound valid room = absurd (ground arith)
  readdir-any most (unlink_call path) s listing bound valid room = absurd (ground arith)
  readdir-any most (rmdir_call path) s listing bound valid room = absurd (ground arith)
  readdir-any most (mkdir_call path) s listing bound valid room = absurd (ground arith)
  readdir-any most (rename_call from to) s listing bound valid room = absurd (ground arith)
  readdir-any most (open_call path flags) s listing bound valid room = absurd (ground arith)
  readdir-any most (opendir_call path flags) s listing bound valid room = absurd (ground arith)
  readdir-any most (release_call fh) s listing bound valid room = absurd (ground arith)
  readdir-any most (fgetattr_call fh) s listing bound valid room = absurd (ground arith)
  readdir-any most (mknod_call path mode device) s listing bound valid room = absurd (ground arith)
  readdir-any most (truncate_call path len) s listing bound valid room = absurd (ground arith)
  readdir-any most (chmod_call path mode) s listing bound valid room = absurd (ground arith)
  readdir-any most (chown_call path user group) s listing bound valid room = absurd (ground arith)
  readdir-any most (utime_call path times) s listing bound valid room = absurd (ground arith)
  readdir-any most (read_call fh len off) s listing bound valid room = absurd (ground arith)
  readdir-any most (write_call fh buffer off) s listing bound valid room = absurd (ground arith)
  readdir-any most (ioctl_call fh cmd flags len arg) s listing bound valid room =
      absurd (ground arith)

  handle-any :
      (most : ℕ) (c : Call) (s : Fs)
      → HasAtMost most
      → IsValid s
      → HasRoom (2 + most) s
      → Safe (handle c s) (λ _ s'. Serves (2 + most) s s')
  handle-any most c s bound valid room = elim (Bool-cases (is_readdir c)) [
    | inr other ↦
        Safe-mono (short-any c s other valid (HasRoom-le s 2 (2 + most) (omega arith) room))
          λ _ s' k. Serves-le s s' 2 (2 + most) (omega arith) k
    | inl listing ↦ readdir-any most c s listing bound valid room
  ]

  -- how many numbers and addresses the calls may take
  abbrev pub needed : ℕ → List Call → ℕ
  needed most [] = 0
  needed most (c ∷ cs) = (2 + most) + needed most cs

  -- A sequence of calls of any entries of the table, with any arguments, where the root directory never
  -- has more than `most` entries, on a valid store that has, for each call, two numbers for tags, two
  -- for files and two addresses left, and `most` more of each, either faults or ends with a valid
  -- store: the numbers of the names are still different, and the database has no link of a number that
  -- is still to come.
  pub serve-IsValid :
      (most : ℕ) (cs : List Call) (s : Fs)
      → HasAtMost most
      → IsValid s
      → s.next_tag + needed most cs ≤ 2 ^ 31
      → s.next_file + needed most cs ≤ 2 ^ 31
      → s.next + needed most cs < invalid_tag
      → Safe (serve cs s) (λ _ s'. IsValid s')
  unfolding serve
  serve-IsValid most [] s bound valid tags files space = inr ([], s, refl, valid)
  serve-IsValid most (c ∷ cs) s bound valid tags files space =
      Safe-bind (handle c) _ s
        (handle-any most c s bound valid (omega arith, omega arith, omega arith))
        λ _ s' (valid', few).
          Safe-bind (serve cs) _ s'
            (serve-IsValid most cs s' bound valid' (omega (arith, few.0)) (omega (arith, few.1))
              (omega (arith, few.2)))
            λ _ s'' valid''. inr (_, _, refl, valid'')
