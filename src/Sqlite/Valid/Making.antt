-- ===== src/Sqlite/Valid/Making.antt =====
-- `tag_mkdir` and `tag_rmdir` of fuse_sqlite3/ on a valid store.
use tag_filesystem.Base.Store.{◌>>=◌, Returns, Returns-bind}
use tag_filesystem.Base.{
  ◌<◌, ◌^◌, ◌≡◌, ◌∙◌, refl, ap, false, none, some, Bytes, arith, pos, neg, ltb, ◌==◌, ==_iff,
  if◌then◌else◌, is_some, Option-cases, Bool-cases, inl, inr,
}
use tag_filesystem.Cutil.HashTable.{Ptr, Uthash, ht_get_entry}
use tag_filesystem.Fuse.Os.{Os}
use tag_filesystem.Fuse.Util.{get_character_count, basenamedup, eexist}
use tag_filesystem.Sqlite.Database.{Sqlite}
use tag_filesystem.Sqlite.Links.{TagFile}
use tag_filesystem.Sqlite.State.{invalid_tag, Fs, load_tag}
use tag_filesystem.Sqlite.Tag.{tag_get, tag_get_or_create, tag_remove}
use tag_filesystem.Sqlite.TagFs.Tagging.{rmdir_tag, tag_rmdir, tag_mkdir}
use tag_filesystem.Sqlite.Valid.Selection.{tag_of, tag_get-run}
use tag_filesystem.Sqlite.Valid.Tags.{Adds, Adds-known, tag_get_or_create_new}
use tag_filesystem.Sqlite.Valid.{Names, IsValid}

module _ ⦃U : Uthash⦄ ⦃O : Os⦄ ⦃Q : Sqlite⦄ where
  tag_of-none : (s : Fs) (v : Bytes) → ht_get_entry s.tags v ≡ none → tag_of s v ≡ invalid_tag
  tag_of-none s v e = rw (e, tag_of) refl

  tag_of-known : (s : Fs) (v : Bytes) (p : Ptr) → ht_get_entry s.tags v ≡ some p → tag_of s v ≡ p
  tag_of-known s v p e = rw (e, tag_of) refl

  pub tag_get-known :
      (s : Fs) (v : Bytes) (p : Ptr) → ht_get_entry s.tags v ≡ some p → tag_get v s ≡ some (p, s)
  tag_get-known s v p e = tag_get-run s v ∙ ap (λ a. some (a, s)) (tag_of-known s v p e)

  -- a known tag has an address, which is neither NULL nor INVALID_TAG
  pub live :
      (s : Fs) (v : Bytes) (p a : Ptr)
      → Names s
      → ht_get_entry s.tags v ≡ some p
      → s.tag_at a ≡ none
      → (p == a) ≡ false
  live s v p a k e dead =
      let (t, et, _, _) = k.tag_ok v p e in
      elim (Bool-cases (p == a)) [
        | inl same ↦ absurd (ground (arith, ==_iff p a))
        | inr apart ↦ apart
      ]

  module _ ⦃T : TagFile⦄ where
    pub tag_mkdir-Adds :
        (s : Fs) (user_path : Bytes)
        → IsValid s
        → ltb 1 (get_character_count user_path b'/') ≡ false
        → s.next_tag < 2 ^ 31
        → s.next < invalid_tag
        → Returns (tag_mkdir user_path s) (λ r s'.
          (r
            ≡ (if is_some (ht_get_entry s.tags (basenamedup user_path)) then neg eexist else pos 0))
          × Adds s (basenamedup user_path) s')
    unfolding tag_mkdir
    tag_mkdir-Adds s user_path valid flat room space =
        let v = basenamedup user_path in
        elim (Option-cases (ht_get_entry s.tags v)) [
          | inr (p, e) ↦ (
            neg eexist,
            s,
            rw
                (
                  flat,
                  tag_get-run s v,
                  ◌>>=◌,
                  tag_of-known s v p e,
                  live s v p invalid_tag valid.names e valid.names.no_invalid,
                )
                refl,
            (rw e refl, Adds-known s v valid p e),
          )
          | inl new ↦
              rw (flat, tag_get-run s v, ◌>>=◌, tag_of-none s v new)
                (Returns-bind (tag_get_or_create v) _ s
                  (tag_get_or_create_new s v valid new room space)
                  λ p s' k. (pos 0, s', refl, (rw new refl, k)))
        ]

    -- `tag_rmdir` of a path with at most one slash whose name is no tag, on a valid store, reads
    -- through INVALID_TAG: it never returns -ENOENT.
    pub tag_rmdir-none :
        (s : Fs) (user_path : Bytes)
        → IsValid s
        → ltb 1 (get_character_count user_path b'/') ≡ false
        → ht_get_entry s.tags (basenamedup user_path) ≡ none
        → tag_rmdir user_path s ≡ none
    unfolding tag_rmdir rmdir_tag tag_remove load_tag
    tag_rmdir-none s user_path valid flat unknown =
        rw
          (
            flat,
            tag_get-run s (basenamedup user_path),
            ◌>>=◌,
            tag_of-none s (basenamedup user_path) unknown,
            valid.names.no_invalid,
          )
          refl
