-- ===== src/Fuse/Valid/Linking.antt =====
-- `tag_file` and `untag_file` on a valid store: no fault, the store stays valid, and the relation
-- between names changes at one pair.
use tag_filesystem.Base.{
  ◌≡◌, refl, Bool, true, false, ◌&&◌, some, Bytes, arith, str_eq, if◌then◌else◌,
}
use tag_filesystem.Cutil.HashTable.{
  Ptr, Uthash, ht_get_entry, ht_add_unique_entry, ht_remove_entry, add_distinct-IsUnique,
  IsUnique-remove, get-add_unique_agreed, get-remove,
}
use tag_filesystem.Fuse.Os.{Os}
use tag_filesystem.Fuse.State.{Tag, File, Fs}
use tag_filesystem.Fuse.Tag.{tag_file, untag_file}
use tag_filesystem.Fuse.Valid.Linked.{Relinks, linked-IsValid, has_tag-linked}
use tag_filesystem.Base.Store.{Returns}
use tag_filesystem.Fuse.Valid.Runs.{tag_file-run, untag_file-run}
use tag_filesystem.Fuse.Valid.{IsValid, has_tag}

module _ ⦃U : Uthash⦄ ⦃O : Os⦄ where
  -- The store `s'` is valid, has the tables of names of `s`, and its relation is that of `s` but at
  -- one pair of names, where it is `b`.
  pub record Changes (s : Fs) (n v : Bytes) (b : Bool) (s' : Fs) : Type 0 where
    pub valid : IsValid s'
    pub same_tags : s'.tags ≡ s.tags
    pub same_files : s'.files ≡ s.files
    pub view :
        (n' v' : Bytes)
        → has_tag s' n' v' ≡ (if str_eq n n' && str_eq v v' then b else has_tag s n' v')

  module _ {s : Fs} (valid : IsValid s) {p q : Ptr} {t : Tag} {f : File} (et : s.tag_at p ≡ some t)
      (ef : s.file_at q ≡ some f) (registered : ht_get_entry s.tags t.value ≡ some p) where
    pub tag_file-Relinks :
        Relinks s p q t f
          (ht_add_unique_entry t.files f.name q).1
          (ht_add_unique_entry f.tags t.value p).1
          true
    tag_file-Relinks =
        let tok = valid.tag_ok p t et in
        let fok = valid.file_ok q f ef in
        record {
          tag_here = et;
          file_here = ef;
          registered = registered;
          files_unique = add_distinct-IsUnique t.files f.name q tok.unique;
          tags_unique = add_distinct-IsUnique f.tags t.value p fok.unique;
          files_get = λ n.
              get-add_unique_agreed t.files f.name n q tok.unique
                (λ w e. ground (arith, fok.listed, tok.listed f.name w e));
          tags_get = λ v.
              get-add_unique_agreed f.tags t.value v p fok.unique
                (λ w e. ground (arith, fok.tagged t.value w e));
        }

    pub untag_file-Relinks :
        Relinks s p q t f
          (ht_remove_entry t.files f.name).1
          (ht_remove_entry f.tags t.value).1
          false
    untag_file-Relinks =
        let tok = valid.tag_ok p t et in
        let fok = valid.file_ok q f ef in
        record {
          tag_here = et;
          file_here = ef;
          registered = registered;
          files_unique = IsUnique-remove t.files f.name tok.unique;
          tags_unique = IsUnique-remove f.tags t.value fok.unique;
          files_get = λ n. get-remove t.files f.name n tok.unique;
          tags_get = λ v. get-remove f.tags t.value v fok.unique;
        }

    tag_file_at : Returns (tag_file p q s) (λ _ s'. Changes s f.name t.value true s')
    tag_file_at =
        let (r, w, e) = tag_file-run s p q et ef (valid.file_ok q f ef).open' in
        (
          tt,
          _,
          e,
          record {
            valid = linked-IsValid valid tag_file-Relinks true r w;
            same_tags = refl;
            same_files = refl;
            view = has_tag-linked valid tag_file-Relinks true r w;
          },
        )

    untag_file_at : Returns (untag_file p q s) (λ _ s'. Changes s f.name t.value false s')
    untag_file_at =
        let (r, w, e) = untag_file-run s p q et ef (valid.file_ok q f ef).open' in
        (
          tt,
          _,
          e,
          record {
            valid = linked-IsValid valid untag_file-Relinks t.in_use r w;
            same_tags = refl;
            same_files = refl;
            view = has_tag-linked valid untag_file-Relinks t.in_use r w;
          },
        )

  -- `tag_file`, on a tag and a file of a valid store, does not fault, leaves a valid store with the
  -- same names, and gives the file the tag; every other pair of names is related as before.
  pub tag_file_lem :
      {s : Fs} {n v : Bytes} {p q : Ptr}
      → IsValid s
      → ht_get_entry s.tags v ≡ some p
      → ht_get_entry s.files n ≡ some q
      → Returns (tag_file p q s) (λ _ s'. Changes s n v true s')
  tag_file_lem {s} {n} {v} {p} {q} valid ev en =
      let (t, et, named) = valid.tag_named v p ev in
      let (f, ef, named') = valid.file_named n q en in
      rw named at (rw named' at (tag_file_at valid et ef (rw named ev)))

  -- `untag_file`, on a tag and a file of a valid store, does not fault, leaves a valid store with
  -- the same names, and takes the tag from the file; every other pair is related as before.
  pub untag_file_lem :
      {s : Fs} {n v : Bytes} {p q : Ptr}
      → IsValid s
      → ht_get_entry s.tags v ≡ some p
      → ht_get_entry s.files n ≡ some q
      → Returns (untag_file p q s) (λ _ s'. Changes s n v false s')
  untag_file_lem {s} {n} {v} {p} {q} valid ev en =
      let (t, et, named) = valid.tag_named v p ev in
      let (f, ef, named') = valid.file_named n q en in
      rw named at (rw named' at (untag_file_at valid et ef (rw named ev)))
