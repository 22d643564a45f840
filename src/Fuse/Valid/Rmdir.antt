-- ===== src/Fuse/Valid/Rmdir.antt =====
-- `tag_rmdir` on a valid store.
use tag_filesystem.Base.{
  ◌≡◌, refl, false, Option, none, some, Bytes, ℤ, pos, neg, arith, is_some, ltb, if◌then◌else◌,
  str_eq_iff, Option-cases, inl, inr,
}
use tag_filesystem.Cutil.HashTable.{Ptr, Uthash, ht_get_entry, has-get}
use tag_filesystem.Fuse.Os.{Os}
use tag_filesystem.Fuse.State.{Cmd, Fs, ◌>>◌, pure}
use tag_filesystem.Fuse.Tag.{tag_get, tag_remove}
use tag_filesystem.Fuse.TagFs.Tagging.{tag_rmdir}
use tag_filesystem.Fuse.Util.{get_character_count, basenamedup, enoent}
use tag_filesystem.Fuse.Valid.Removing.{WithoutTag, tag_remove_lem}
use tag_filesystem.Base.Store.{Returns, Returns-bind}
use tag_filesystem.Fuse.Valid.{IsValid, has_tag}

module _ ⦃U : Uthash⦄ ⦃O : Os⦄ where
  -- no file has a tag that is not in the table
  has_tag-absent :
      {s : Fs} (valid : IsValid s) (n v : Bytes)
      → ht_get_entry s.tags v ≡ none
      → has_tag s n v ≡ false
  unfolding has_tag
  has_tag-absent {s} valid n v absent = elim (Option-cases (ht_get_entry s.files n)) [
    | inl e ↦ ground arith
    | inr (q, e) ↦
        let (f, ef, _) = valid.file_named n q e in
        elim (Option-cases (ht_get_entry f.tags v)) [
          | inl none_here ↦ ground (arith, has-get f.tags v)
          | inr (p, here) ↦ absurd (ground (arith, (valid.file_ok q f ef).tagged v p here))
        ]
  ]

  WithoutTag-absent :
      {s : Fs} (valid : IsValid s) (v : Bytes) → ht_get_entry s.tags v ≡ none → WithoutTag s v s
  WithoutTag-absent {s} valid v absent = record {
    valid = valid;
    view = λ n w. ground (arith, has_tag-absent valid n v absent, str_eq_iff v w);
    tags_get = λ w. ground (arith, str_eq_iff v w);
    same_files = refl;
  }

  -- the part of `tag_rmdir` behind the test of the path, for the result of `tag_get`
  abbrev remove_found : Option Ptr → Cmd ℤ
  remove_found none = pure (neg enoent)
  remove_found (some p) = do tag_remove p; pure (pos 0)

  remove_found-WithoutTag :
      {s : Fs} (valid : IsValid s) (v : Bytes) (found : Option Ptr)
      → ht_get_entry s.tags v ≡ found
      → Returns
          (remove_found found s)
          (λ res s'. WithoutTag s v s' × (res ≡ (if is_some found then pos 0 else neg enoent)))
  remove_found-WithoutTag {s} valid v none e =
      (neg enoent, s, refl, (WithoutTag-absent valid v e, refl))
  remove_found-WithoutTag {s} valid v (some p) e =
      Returns-bind (tag_remove p) _ s (tag_remove_lem valid e)
        λ _ s' k. (pos 0, s', refl, (k, refl))

  -- `tag_rmdir`, on a valid store and a path with at most one slash, does not fault, and returns 0 if
  -- there is a tag with the last part of the path as its name and -ENOENT if not. Afterwards the store
  -- is valid, no file has this tag, the table of the tags does not have it, and every other name and
  -- pair of names is as before.
  pub tag_rmdir_lem :
      {s : Fs} (valid : IsValid s) (user_path : Bytes)
      → ltb 1 (get_character_count user_path b'/') ≡ false
      → Returns (tag_rmdir user_path s) (λ res s'.
        WithoutTag s (basenamedup user_path) s'
        × (res ≡ (
            if is_some (ht_get_entry s.tags (basenamedup user_path)) then pos 0 else neg enoent)))
  unfolding tag_rmdir tag_get
  tag_rmdir_lem {s} valid user_path shallow = rw shallow (
      remove_found-WithoutTag valid (basenamedup user_path)
        (ht_get_entry s.tags (basenamedup user_path)) refl)
