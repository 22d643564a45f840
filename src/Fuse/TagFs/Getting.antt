-- ===== src/Fuse/TagFs/Getting.antt =====
-- `free_selected_tags`, and the whole of `tag_getattr`, on a valid store.
use tag_filesystem.Base.{
  ◌≡◌, ◌∙◌, refl, sym, true, false, some, List, [], ◌∷◌, Bytes, arith, is_some, str_eq, str_eq_iff,
  Bool-cases, inl, inr,
}
use tag_filesystem.Cutil.HashTable.{Ptr, Entries, Uthash, ht_entries, ht_get_entry}
use tag_filesystem.Cutil.Libc.{slash}
use tag_filesystem.Cutil.String2.Split.{words}
use tag_filesystem.Fuse.Os.{Os, Stat, done}
use tag_filesystem.Fuse.State.Writes.{load_tag-run}
use tag_filesystem.Fuse.State.{UserPath, Fs, ◌>>=◌, for_each, each_entry}
use tag_filesystem.Fuse.Tag.{free_selected_tag, free_selected_tags}
use tag_filesystem.Fuse.TagFs.Attr.{getattr_intra, tag_getattr}
use tag_filesystem.Fuse.TagFs.Making.{path_create_lem}
use tag_filesystem.Fuse.UserPath.{path_create, path_delete}
use tag_filesystem.Fuse.Util.{basenamedup, dirnamedup, path_realpath}
use tag_filesystem.Fuse.Valid.LinkAll.{is_one_of}
use tag_filesystem.Fuse.Valid.Matching.{has_all, has_all-Keeps, match_result, getattr_intra_lem}
use tag_filesystem.Fuse.Valid.Removing.{tag_remove_lem}
use tag_filesystem.Base.Store.{Returns, Returns-bind, Returns-mono}
use tag_filesystem.Fuse.Valid.Selection.{Selects, Selects-Keeps}
use tag_filesystem.Fuse.Valid.Unlinking.{Distinct}
use tag_filesystem.Fuse.Valid.{IsValid, has_tag}

module _ ⦃U : Uthash⦄ ⦃O : Os⦄ where
  -- The store `s'` is valid; tags other than `vs`, the pairs of names with such tags, and the table of
  -- the files are as in `s`.
  pub record Frees (s : Fs) (vs : List Bytes) (s' : Fs) : Type 0 where
    pub valid : IsValid s'
    pub view : (n w : Bytes) → is_one_of w vs ≡ false → has_tag s' n w ≡ has_tag s n w
    pub other_tags :
        (w : Bytes) → is_one_of w vs ≡ false → ht_get_entry s'.tags w ≡ ht_get_entry s.tags w
    pub same_files : s'.files ≡ s.files

  Frees-refl : {s : Fs} (vs : List Bytes) → IsValid s → Frees s vs s
  Frees-refl vs valid = record {
    valid = valid;
    view = λ n w e. refl;
    other_tags = λ w e. refl;
    same_files = refl;
  }

  free_selected_tag-Frees :
      {s : Fs} {v : Bytes} {p : Ptr}
      → IsValid s
      → ht_get_entry s.tags v ≡ some p
      → Returns (free_selected_tag p s) (λ _ s'. Frees s (v ∷ []) s')
  unfolding free_selected_tag
  free_selected_tag-Frees {s} {v} {p} valid ev =
      let (t, et, named) = valid.tag_named v p ev in
      elim (Bool-cases t.in_use) [
        | inl used ↦ rw (load_tag-run s p et, ◌>>=◌, used) (tt, s, refl, Frees-refl (v ∷ []) valid)
        | inr free ↦
            rw (load_tag-run s p et, ◌>>=◌, free)
              (Returns-mono (tag_remove_lem valid ev) λ _ s' k. record {
                valid = k.valid;
                view = λ n w e. ground (arith, k.view n w, str_eq_iff v w);
                other_tags = λ w e. ground (arith, k.tags_get w, str_eq_iff v w);
                same_files = k.same_files;
              })
      ]

  Selects-Frees :
      {s s' : Fs} (v : Bytes) (ns : List Bytes) (es : Entries)
      → Frees s (v ∷ []) s'
      → is_one_of v ns ≡ false
      → Selects s ns es
      → Selects s' ns es
  Selects-Frees v [] [] k e sel = sel
  Selects-Frees v (m ∷ ns) ((j, p) ∷ es) k e (named, here, sel) = (
    named,
    k.other_tags m (ground (arith, str_eq_iff v m, str_eq_iff m v)) ∙ here,
    Selects-Frees v ns es k (ground arith) sel,
  )
  Selects-Frees v [] (_ ∷ _) k e sel = absurd sel
  Selects-Frees v (_ ∷ _) [] k e sel = absurd sel

  free_each-Frees :
      (names : List Bytes) (es : Entries) (s : Fs)
      → IsValid s
      → Distinct names
      → Selects s names es
      → Returns (for_each es (λ _ p. free_selected_tag p) s) (λ _ s'. Frees s names s')
  unfolding for_each
  free_each-Frees [] [] s valid d sel = (tt, s, refl, Frees-refl [] valid)
  free_each-Frees (v ∷ names) ((k, p) ∷ es) s valid (new, d) (named, here, sel) =
      Returns-bind (free_selected_tag p) _ s (free_selected_tag-Frees valid here) λ _ s₁ u.
        Returns-mono (free_each-Frees names es s₁ u.valid d (Selects-Frees v names es u new sel))
          λ _ s₂ l. record {
            valid = l.valid;
            view = λ n w e. ground (arith, l.view n w, u.view n w);
            other_tags = λ w e. ground (arith, l.other_tags w, u.other_tags w);
            same_files = l.same_files ∙ u.same_files;
          }
  free_each-Frees [] (_ ∷ _) s valid d sel = absurd sel
  free_each-Frees (_ ∷ _) [] s valid d sel = absurd sel

  -- `path_delete`, on a valid store and a path that selects tags with different names, does not fault,
  -- keeps the store valid, and leaves all files, all other tags and their pairs of names as they are.
  pub path_delete_lem :
      {s : Fs} (valid : IsValid s) (path : UserPath) (names : List Bytes)
      → Distinct names
      → Selects s names (ht_entries path.selected_tags)
      → Returns (path_delete path s) (λ _ s'. Frees s names s')
  unfolding path_delete free_selected_tags each_entry
  path_delete_lem {s} valid path names d sel =
      free_each-Frees names (ht_entries path.selected_tags) s valid d sel

  -- `tag_getattr`, on a valid store and a path of the user whose directory part is not "." and names
  -- different tags, and whose last part is a real file that is no directory, does not fault, keeps the
  -- store valid and registers the file; it writes attributes, and returns 0 if the file has all these
  -- tags and -ENOENT if not.
  pub tag_getattr_lem :
      {s : Fs} (valid : IsValid s) (user_path : Bytes) (st : Stat)
      → str_eq (dirnamedup user_path) (b'.' ∷ []) ≡ false
      → Distinct (words slash (dirnamedup user_path))
      → O.stat s.world (path_realpath user_path) ≡ done st
      → st.is_dir ≡ false
      → Returns (tag_getattr user_path s) (λ r s'.
        IsValid s'
        × is_some (ht_get_entry s'.files (basenamedup user_path)) ≡ true
        × (r.0
            ≡ match_result (has_all s (basenamedup user_path) (words slash (dirnamedup user_path))))
        × is_some r.1 ≡ true)
  unfolding tag_getattr
  tag_getattr_lem {s} valid user_path st proper distinct here file =
      let names = words slash (dirnamedup user_path) in
      Returns-bind (path_create user_path false) _ s (path_create_lem valid user_path false proper)
        λ path s₁ (k, name, real, sel).
          Returns-bind (getattr_intra path) _ s₁
            (getattr_intra_lem k.valid path st names sel (rw (k.same_world, real) here) file)
            λ r s₂ (l, registered, res, attrs).
              Returns-bind (path_delete path) _ s₂
                (path_delete_lem l.valid path names distinct
                  (Selects-Keeps names (ht_entries path.selected_tags) l sel))
                λ _ s₃ u. (
                  r,
                  s₃,
                  refl,
                  (
                    u.valid,
                    rw (u.same_files, sym name) registered,
                    rw name at (rw (has_all-Keeps path.filename names k) at res),
                    attrs,
                  ),
                )
