-- ===== src/Sqlite/Serving/Tagging.antt =====
-- The operations of the table of fuse_sqlite3/ that look at tags or change them, on any valid store.
use tag_filesystem.Base.Store.{◌>>=◌}
use tag_filesystem.Base.{
  ℕ, ◌+◌, ◌^◌, ◌<◌, ◌≤◌, refl, not, ◌||◌, Bytes, arith, ltb, leb, ◌==◌, Option, ℤ, Option-cases,
  Bool-cases, inl, inr,
}
use tag_filesystem.Cutil.HashTable.{Uthash, ht_get_entry, ht_entry_count}
use tag_filesystem.Fuse.Os.{Os}
use tag_filesystem.Fuse.Util.{get_character_count, basenamedup}
use tag_filesystem.Sqlite.Database.{Sqlite}
use tag_filesystem.Sqlite.Links.{TagFile}
use tag_filesystem.Sqlite.State.{invalid_tag, Fs}
use tag_filesystem.Sqlite.TagFs.Attr.{tag_getattr}
use tag_filesystem.Sqlite.TagFs.Tagging.{tag_unlink, tag_link, tag_rename, tag_mkdir, tag_rmdir}
use tag_filesystem.Sqlite.Serving.Steps.{
  Safe, Safe-mono, Safe-if, Goes, Goes-refl, Goes-le, path_create-any,
}
use tag_filesystem.Sqlite.Serving.Paths.{
  getattr_intra-any, path_unlink-any, path_link-any, rename_linked-any,
}
use tag_filesystem.Sqlite.Valid.Making.{tag_mkdir-Adds, tag_rmdir-none}
use tag_filesystem.Sqlite.Valid.Removing.{tag_rmdir-Removes}
use tag_filesystem.Sqlite.Valid.Selection.{path_of}
use tag_filesystem.Sqlite.Valid.{Few, IsValid}

module _ ⦃U : Uthash⦄ ⦃O : Os⦄ ⦃Q : Sqlite⦄ ⦃T : TagFile⦄ where
  -- `s'` is valid and has few new numbers
  abbrev pub Serves : ℕ → Fs → Fs → Type 0
  Serves k s s' = IsValid s' × Few k s s'

  -- numbers and addresses are left for so many new ones
  abbrev pub HasRoom : ℕ → Fs → Type 0
  HasRoom k s = (s.next_tag + k ≤ 2 ^ 31) × (s.next_file + k ≤ 2 ^ 31) × (s.next + k < invalid_tag)

  pub Serves-Goes : {s s' : Fs} (k : ℕ) → k ≤ 2 → Goes k s s' → Serves 2 s s'
  Serves-Goes k le g = let h = Goes-le k 2 le g in (h.valid, h.few)

  pub serves :
      {s : Fs} {run : Option (ℤ × Fs)}
      → Safe run (λ _ s'. Goes 0 s s')
      → Safe run (λ _ s'. Serves 2 s s')
  serves run = Safe-mono run λ _ s' g. Serves-Goes 0 (omega arith) g

  unchanged : (s : Fs) → IsValid s → Serves 2 s s
  unchanged s valid = Serves-Goes 0 (omega arith) (Goes-refl s valid)

  pub tag_link-any :
      (s : Fs) (from to : Bytes)
      → IsValid s
      → HasRoom 2 s
      → Safe (tag_link from to s) (λ _ s'. Serves 2 s s')
  unfolding tag_link
  tag_link-any s from to valid (_, room, _) =
      let (h, run, _) = path_create-any s from in
      let (h', run', (ws, e)) = path_create-any s to in
      rw (run, ◌>>=◌, run')
        (Safe-mono (path_link-any s (path_of from h) (path_of to h') ws valid room e)
          λ _ s' g. Serves-Goes 2 (omega arith) g)

  pub tag_unlink-any :
      (s : Fs) (user_path : Bytes)
      → IsValid s
      → Safe (tag_unlink user_path s) (λ _ s'. Serves 2 s s')
  unfolding tag_unlink
  tag_unlink-any s user_path valid =
      let (h, run, (ws, e)) = path_create-any s user_path in
      Safe-if (leb (get_character_count user_path b'/') 1) _ _ s
        (inr (_, _, refl, unchanged s valid))
        (rw (run, ◌>>=◌)
          (Safe-mono (path_unlink-any s (path_of user_path h) ws valid e)
            λ _ s' g. Serves-Goes 0 (omega arith) g))

  pub tag_rename-any :
      (s : Fs) (from to : Bytes)
      → IsValid s
      → HasRoom 2 s
      → Safe (tag_rename from to s) (λ _ s'. Serves 2 s s')
  unfolding tag_rename
  tag_rename-any s from to valid (_, room, _) =
      let (h, run, (ws, e)) = path_create-any s from in
      let (h', run', (us, e')) = path_create-any s to in
      rw (run, ◌>>=◌, run')
        (Safe-if (not (ht_entry_count h == 1) || not (ht_entry_count h' == 1)) _ _ s
          (inr (_, _, refl, unchanged s valid))
          (Safe-mono (rename_linked-any s (path_of from h) (path_of to h') ws us valid room e e')
            λ _ s' g. Serves-Goes 2 (omega arith) g))

  pub tag_getattr-any :
      (s : Fs) (user_path : Bytes)
      → IsValid s
      → HasRoom 2 s
      → Safe (tag_getattr user_path s) (λ _ s'. Serves 2 s s')
  unfolding tag_getattr
  tag_getattr-any s user_path valid (_, room, _) =
      let (h, run, _) = path_create-any s user_path in
      rw (run, ◌>>=◌)
        (Safe-mono (getattr_intra-any s (path_of user_path h) valid (omega arith))
          λ _ s' g. Serves-Goes 1 (omega arith) g)

  pub tag_mkdir-any :
      (s : Fs) (user_path : Bytes)
      → IsValid s
      → HasRoom 2 s
      → Safe (tag_mkdir user_path s) (λ _ s'. Serves 2 s s')
  unfolding tag_mkdir
  tag_mkdir-any s user_path valid (room, _, space) =
      elim (Bool-cases (ltb 1 (get_character_count user_path b'/'))) [
        | inl deep ↦ rw deep (inr (_, _, refl, unchanged s valid))
        | inr flat ↦
            Safe-mono (inr (tag_mkdir-Adds s user_path valid flat (omega arith) (omega arith)))
              λ _ s' (_, k).
                (k.valid, (omega (arith, k.few.0), omega (arith, k.few.1), omega (arith, k.few.2)))
      ]

  pub tag_rmdir-any :
      (s : Fs) (user_path : Bytes)
      → IsValid s
      → Safe (tag_rmdir user_path s) (λ _ s'. Serves 2 s s')
  unfolding tag_rmdir
  tag_rmdir-any s user_path valid = elim (Bool-cases (ltb 1 (get_character_count user_path b'/'))) [
    | inl deep ↦ rw deep (inr (_, _, refl, unchanged s valid))
    | inr flat ↦ elim (Option-cases (ht_get_entry s.tags (basenamedup user_path))) [
      | inl unknown ↦ inl (tag_rmdir-none s user_path valid flat unknown)
      | inr (p, known) ↦
          Safe-mono (inr (tag_rmdir-Removes s user_path p valid flat known)) λ _ s' (_, k).
            (k.valid, (omega (arith, k.few.0), omega (arith, k.few.1), omega (arith, k.few.2)))
    ]
  ]
