-- ===== src/Sqlite/Serving/Outside.antt =====
-- The operations of fuse_sqlite3/ that act on the real files, on any valid store.
use tag_filesystem.Base.Store.{◌>>=◌, pure}
use tag_filesystem.Base.{
  ℕ, ◌+◌, ◌≤◌, refl, ◌||◌, Bytes, ℤ, arith, codes, str_eq, Bool-cases, inl, inr,
}
use tag_filesystem.Cutil.HashTable.{Uthash}
use tag_filesystem.Fuse.Os.{Os, Result}
use tag_filesystem.Fuse.TagFs.Content.{raw_result}
use tag_filesystem.Fuse.Util.{path_realpath}
use tag_filesystem.Sqlite.Database.{Sqlite}
use tag_filesystem.Sqlite.Links.{TagFile}
use tag_filesystem.Sqlite.State.{Heap, FileDescriptor, Fs, Cmd, syscall}
use tag_filesystem.Sqlite.Serving.Steps.{Safe, Safe-if, Goes}
use tag_filesystem.Sqlite.TagFs.Content.{tag_mknod, tag_truncate, tag_chmod, tag_chown, tag_utime}
use tag_filesystem.Sqlite.Valid.{tag_id, file_id, Names, IsValid}

module _ ⦃U : Uthash⦄ ⦃O : Os⦄ ⦃Q : Sqlite⦄ ⦃T : TagFile⦄ where
  -- the store with another world, other descriptors and a later next address
  abbrev apart_from : Fs → O.World → Heap FileDescriptor → ℕ → Fs
  apart_from s w fds n = record s { world = w; fd_at = fds; next = n }

  apart_from-Names :
      {s : Fs} (w : O.World) (fds : Heap FileDescriptor) (n : ℕ)
      → Names s
      → s.next ≤ n
      → Names (apart_from s w fds n)
  unfolding tag_id file_id
  apart_from-Names w fds n k later = record {
    tags_unique = k.tags_unique;
    files_unique = k.files_unique;
    tag_ok = k.tag_ok;
    file_ok = k.file_ok;
    tags_apart = k.tags_apart;
    files_apart = k.files_apart;
    tags_bound = k.tags_bound;
    files_bound = k.files_bound;
    no_invalid = k.no_invalid;
    no_null = k.no_null;
    started = omega (arith, k.started);
    tags_fresh = λ p h. k.tags_fresh p (omega (arith, h));
    files_fresh = λ q h. k.files_fresh q (omega (arith, h));
  }

  pub Goes-apart :
      (s : Fs) (w : O.World) (fds : Heap FileDescriptor) (k n : ℕ)
      → IsValid s
      → s.next ≤ n
      → n ≤ s.next + k
      → Goes k s (apart_from s w fds n)
  Goes-apart s w fds k n valid later few = record {
    valid = record { names = apart_from-Names w fds n valid.names later; links = valid.links };
    tags = refl;
    files = λ m r e. e;
    few = (omega arith, omega arith, omega arith);
  }

  pub Goes-world : (s : Fs) (w : O.World) → IsValid s → Goes 0 s (record s { world = w })
  Goes-world s w valid = Goes-apart s w s.fd_at 0 s.next valid (omega arith) (omega arith)

  -- a call of the operating system whose result is returned
  abbrev call_outside : (O.World → Result (Unit {0}) × O.World) → Cmd ℤ
  call_outside f = syscall f >>= λ r. pure (raw_result r)

  call_outside-any :
      (f : O.World → Result (Unit {0}) × O.World) (s : Fs)
      → IsValid s
      → Safe (call_outside f s) (λ _ s'. Goes 0 s s')
  call_outside-any f s valid = inr (_, _, refl, Goes-world s (f s.world).1 valid)

  pub tag_mknod-any :
      (s : Fs) (user_path : Bytes) (mode device : ℕ)
      → IsValid s
      → Safe (tag_mknod user_path mode device s) (λ _ s'. Goes 0 s s')
  unfolding tag_mknod
  tag_mknod-any s user_path mode device valid =
      elim (Bool-cases (O.access s.world (path_realpath user_path))) [
        | inl e ↦ rw e (inr (_, _, refl, Goes-world s s.world valid))
        | inr e ↦
            rw e (call_outside-any (λ w. O.mknod w (path_realpath user_path) mode device) s valid)
      ]

  pub tag_truncate-any :
      (s : Fs) (user_path : Bytes) (len : ℕ)
      → IsValid s
      → Safe (tag_truncate user_path len s) (λ _ s'. Goes 0 s s')
  unfolding tag_truncate
  tag_truncate-any s user_path len valid =
      Safe-if (str_eq user_path (codes "/.tags") || str_eq user_path (codes ".tags")) _ _ s
        (inr (_, _, refl, Goes-world s s.world valid))
        (call_outside-any (λ w. O.truncate w (path_realpath user_path) len) s valid)

  pub tag_chmod-any :
      (s : Fs) (user_path : Bytes) (mode : ℕ)
      → IsValid s
      → Safe (tag_chmod user_path mode s) (λ _ s'. Goes 0 s s')
  unfolding tag_chmod
  tag_chmod-any s user_path mode valid =
      call_outside-any (λ w. O.chmod w (path_realpath user_path) mode) s valid

  pub tag_chown-any :
      (s : Fs) (user_path : Bytes) (user group : ℕ)
      → IsValid s
      → Safe (tag_chown user_path user group s) (λ _ s'. Goes 0 s s')
  unfolding tag_chown
  tag_chown-any s user_path user group valid =
      call_outside-any (λ w. O.chown w (path_realpath user_path) user group) s valid

  pub tag_utime-any :
      (s : Fs) (user_path : Bytes) (times : ℕ)
      → IsValid s
      → Safe (tag_utime user_path times s) (λ _ s'. Goes 0 s s')
  unfolding tag_utime
  tag_utime-any s user_path times valid =
      call_outside-any (λ w. O.utime w (path_realpath user_path) times) s valid
