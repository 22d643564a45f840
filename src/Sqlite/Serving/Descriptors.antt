-- ===== src/Sqlite/Serving/Descriptors.antt =====
-- The operations of fuse_sqlite3/ that open and close, on any valid store.
use tag_filesystem.Sqlite.Serving.Outside.{Goes-apart, Goes-world}
use tag_filesystem.Base.Store.{◌>>=◌, pure}
use tag_filesystem.Base.{
  ℕ, ◌+◌, ◌<◌, ◌^◌, pos, neg, Option, [], ◌∷◌, if◌then◌else◌, ◌≡◌, refl, Bool, true, false, some,
  none, Bytes, ℤ, arith, str_eq, Option-cases, Bool-cases, inl, inr,
}
use tag_filesystem.Cutil.HashTable.{Ptr, Uthash, HashTable, ht_create}
use tag_filesystem.Cutil.Libc.{slash}
use tag_filesystem.Cutil.String2.Split.{words, string_split-words}
use tag_filesystem.Sqlite.Tag.{compute_selected_tags}
use tag_filesystem.Sqlite.UserPath.{path_create}
use tag_filesystem.Fuse.Os.{Os, Result, done, failed}
use tag_filesystem.Fuse.Util.{dirnamedup}
use tag_filesystem.Sqlite.Descriptor.{fd_new, fd_open, close_handle, fd_close}
use tag_filesystem.Sqlite.File.{file_get}
use tag_filesystem.Sqlite.Valid.Selection.{tag_get-run, select_tags-chosen, path_of}
use tag_filesystem.Sqlite.Serving.Paths.{getattr_intra-any}
use tag_filesystem.Sqlite.TagFs.Attr.{
  tag_open, tag_open_file, tag_open_dir, tag_release_generic, tag_fgetattr,
}
use tag_filesystem.Sqlite.Database.{Sqlite}
use tag_filesystem.Sqlite.Links.{TagFile}
use tag_filesystem.Sqlite.State.{Fs, Cmd, load_fd, free_fd, UserPath, new_fd}
use tag_filesystem.Sqlite.Serving.Steps.{
  Safe, Safe-mono, Safe-bind, Goes, Goes-refl, Goes-le, Goes-trans,
}
use tag_filesystem.Sqlite.Valid.{IsValid}

module _ ⦃U : Uthash⦄ ⦃O : Os⦄ ⦃Q : Sqlite⦄ ⦃T : TagFile⦄ where
  -- what `fd_open` does with the result of `open`
  abbrev opened_file : UserPath → Result ℕ → Cmd (Result Ptr)
  opened_file path opened = elim opened [
    | failed e ↦ pure (failed e)
    | done fh ↦ do
      file ← file_get path.filename
      fd ← new_fd (fd_new path false file (some fh))
      pure (done fd)
  ]

  opened_file-any :
      (s : Fs) (path : UserPath) (opened : Result ℕ)
      → IsValid s
      → Safe (opened_file path opened s) (λ _ s'. Goes 1 s s')
  unfolding file_get new_fd
  opened_file-any s path (failed e) valid =
      inr (_, _, refl, Goes-le 0 1 (omega arith) (Goes-refl s valid))
  opened_file-any s path (done fh) valid =
      inr (_, _, refl, Goes-apart s s.world _ 1 (s.next + 1) valid (omega arith) (omega arith))

  fd_open-any :
      (s : Fs) (path : UserPath) (flags : ℕ) (is_tag : Bool)
      → IsValid s
      → Safe (fd_open path flags is_tag s) (λ _ s'. Goes 1 s s')
  unfolding fd_open new_fd
  fd_open-any s path flags true valid =
      rw (tag_get-run s path.filename, ◌>>=◌)
        (inr (_, _, refl, Goes-apart s s.world _ 1 (s.next + 1) valid (omega arith) (omega arith)))
  fd_open-any s path flags false valid =
      let opened = O.open_file s.world path.realpath flags in
      let g : Goes 0 s (record s { world = opened.1 }) = Goes-world s opened.1 valid in
      Safe-mono (opened_file-any (record s { world = opened.1 }) path opened.0 g.valid)
        λ _ s' g'. Goes-trans 0 1 g g'

  compute_selected_tags-same :
      (s : Fs) (dirpath : Bytes) → (h : HashTable) × (compute_selected_tags dirpath s ≡ some (h, s))
  unfolding compute_selected_tags
  compute_selected_tags-same s dirpath = elim (Bool-cases (str_eq dirpath (b'.' ∷ []))) [
    | inl dot ↦ (ht_create, rw dot refl)
    | inr dir ↦
        let (h, run, _) = select_tags-chosen s (words slash dirpath) ht_create in
        (h, rw (dir, string_split-words dirpath slash) run)
  ]

  path_create-same :
      (s : Fs) (user_path : Bytes) (is_tag : Bool)
      → (path : UserPath) × (path_create user_path is_tag s ≡ some (path, s))
  unfolding path_create
  path_create-same s user_path is_tag =
      let dirpath = if is_tag then user_path else dirnamedup user_path in
      let (h, run) = compute_selected_tags-same s dirpath in
      (path_of user_path h, rw (run, ◌>>=◌) refl)

  pub tag_open_file-any :
      (s : Fs) (user_path : Bytes) (flags : ℕ)
      → IsValid s
      → Safe (tag_open_file user_path flags s) (λ _ s'. Goes 1 s s')
  unfolding tag_open_file tag_open
  tag_open_file-any s user_path flags valid =
      let (path, run) = path_create-same s user_path false in
      rw (run, ◌>>=◌) (fd_open-any s path flags false valid)

  pub tag_open_dir-any :
      (s : Fs) (user_path : Bytes) (flags : ℕ)
      → IsValid s
      → Safe (tag_open_dir user_path flags s) (λ _ s'. Goes 1 s s')
  unfolding tag_open_dir tag_open
  tag_open_dir-any s user_path flags valid =
      let (path, run) = path_create-same s user_path true in
      rw (run, ◌>>=◌) (fd_open-any s path flags true valid)

  -- the end of `close_handle`
  abbrev closed : Result (Unit {0}) → Cmd ℤ
  closed r = elim r [ done _ ↦ pure (pos 0) | failed e ↦ pure (neg e) ]

  closed-any :
      (s : Fs) (r : Result (Unit {0})) → IsValid s → Safe (closed r s) (λ _ s'. Goes 0 s s')
  closed-any s (done u) valid = inr (_, _, refl, Goes-refl s valid)
  closed-any s (failed e) valid = inr (_, _, refl, Goes-refl s valid)

  close_handle-any :
      (s : Fs) (fh : Option ℕ) → IsValid s → Safe (close_handle fh s) (λ _ s'. Goes 0 s s')
  unfolding close_handle
  close_handle-any s none valid = inr (_, _, refl, Goes-refl s valid)
  close_handle-any s (some fh) valid =
      let r = O.close s.world fh in
      let g : Goes 0 s (record s { world = r.1 }) = Goes-world s r.1 valid in
      Safe-mono (closed-any (record s { world = r.1 }) r.0 g.valid) λ _ s' g'. Goes-trans 0 0 g g'

  free_fd-any : (s : Fs) (p : Ptr) → IsValid s → Safe (free_fd p s) (λ _ s'. Goes 0 s s')
  unfolding free_fd
  free_fd-any s p valid = elim (Option-cases (s.fd_at p)) [
    | inl e ↦ inl (rw (e, free_fd) refl)
    | inr (d, e) ↦
        rw (e, free_fd)
          (inr (_, _, refl, Goes-apart s s.world _ 0 s.next valid (omega arith) (omega arith)))
  ]

  pub load_fd-any : (s : Fs) (p : Ptr) → Safe (load_fd p s) (λ _ s'. s' ≡ s)
  unfolding load_fd
  load_fd-any s p = elim (Option-cases (s.fd_at p)) [
    | inl e ↦ inl (rw (e, load_fd) refl)
    | inr (d, e) ↦ rw (e, load_fd) (inr (d, s, refl, refl))
  ]

  pub tag_release_generic-any :
      (s : Fs) (fh : Ptr) → IsValid s → Safe (tag_release_generic fh s) (λ _ s'. Goes 0 s s')
  unfolding tag_release_generic fd_close
  tag_release_generic-any s fh valid = Safe-bind (load_fd fh) _ s (load_fd-any s fh) λ d s0 same.
      rw same (
        Safe-bind (close_handle d.fh) _ s (close_handle-any s d.fh valid) λ err s1 g.
          Safe-bind (free_fd fh) _ s1 (free_fd-any s1 fh g.valid)
            λ _ s2 g'. inr (err, s2, refl, Goes-trans 0 0 g g'))

  pub tag_fgetattr-any :
      (s : Fs) (fh : Ptr)
      → IsValid s
      → s.next_file < 2 ^ 31
      → Safe (tag_fgetattr fh s) (λ _ s'. Goes 1 s s')
  unfolding tag_fgetattr
  tag_fgetattr-any s fh valid room =
      Safe-bind (load_fd fh) _ s (load_fd-any s fh)
        λ d s0 same. rw same (getattr_intra-any s d.path valid room)
