-- ===== src/Sqlite/Valid/LinkingAll.antt =====
-- The loops of fuse_sqlite3/ over the selected tags that give tags to a file or take them away, and
-- `path_unlink`.
use tag_filesystem.Base.Store.{◌>>=◌, for_each, Returns, Returns-bind, Returns-mono}
use tag_filesystem.Base.{
  ◌≡◌, ◌∙◌, refl, ap, Bool, true, false, ◌&&◌, some, List, [], ◌∷◌, Bytes, arith, pos, str_eq,
  if◌then◌else◌,
}
use tag_filesystem.Cutil.HashTable.{Ptr, Entries, Uthash, ht_get_entry, ht_entries}
use tag_filesystem.Fuse.Os.{Os}
use tag_filesystem.Fuse.Valid.LinkAll.{is_one_of}
use tag_filesystem.Sqlite.Database.{Sqlite}
use tag_filesystem.Sqlite.File.{file_get}
use tag_filesystem.Sqlite.Links.{TagFile}
use tag_filesystem.Sqlite.State.{UserPath, Fs, Cmd, each_entry}
use tag_filesystem.Sqlite.Tag.{tag_file, untag_file}
use tag_filesystem.Sqlite.TagFs.Tagging.{path_unlink}
use tag_filesystem.Sqlite.Valid.Linking.{with_db, Relinked, tag_file_lem, untag_file_lem}
use tag_filesystem.Sqlite.Valid.Matching.{Selects}
use tag_filesystem.Sqlite.Valid.{has_tag, IsValid}

module _ ⦃U : Uthash⦄ ⦃O : Os⦄ ⦃Q : Sqlite⦄ where
  pub Selects-same :
      (s s' : Fs) (vs : List Bytes) (es : Entries)
      → s'.tags ≡ s.tags
      → Selects s vs es
      → Selects s' vs es
  Selects-same s s' [] [] same sel = tt
  Selects-same s s' (v ∷ vs) ((_, p) ∷ es) same (e, ev, sel) =
      (e, rw same ev, Selects-same s s' vs es same sel)
  Selects-same s s' [] (_ ∷ _) same sel = absurd sel
  Selects-same s s' (_ ∷ _) [] same sel = absurd sel

  module _ ⦃T : TagFile⦄ where
    -- only the database has changed, and of the relation only the pairs of the file with these tags
    pub record Relinks (s : Fs) (n : Bytes) (vs : List Bytes) (b : Bool) (s' : Fs) : Type 0 where
      pub db' : Q.Db
      pub same : s' ≡ with_db s db'
      pub valid : IsValid s'
      pub view :
          (m u : Bytes)
          → has_tag s' m u ≡ (if str_eq n m && is_one_of u vs then b else has_tag s m u)

    each_entry-Relinks :
        (n : Bytes) (q : Ptr) (b : Bool) (fun : Ptr → Cmd (Unit {0}))
        → ((s : Fs) (v : Bytes) (p : Ptr)
            → IsValid s
            → ht_get_entry s.tags v ≡ some p
            → ht_get_entry s.files n ≡ some q
            → Returns (fun p s) (λ _ s'. Relinked s n v b s'))
        → (s : Fs) (vs : List Bytes) (es : Entries) → IsValid s
        → ht_get_entry s.files n ≡ some q
        → Selects s vs es
        → Returns (for_each es (λ _ p. fun p) s) (λ _ s'. Relinks s n vs b s')
    unfolding for_each
    each_entry-Relinks n q b fun one s [] [] valid en sel =
        (tt, s, refl, record { db' = s.db; same = refl; valid = valid; view = λ m u. ground arith })
    each_entry-Relinks n q b fun one s (v ∷ vs) ((_, p) ∷ es) valid en (_, ev, sel) =
        Returns-bind (fun p) _ s (one s v p valid ev en) λ _ s1 k.
          Returns-mono
            (each_entry-Relinks n q b fun one s1 vs es k.valid (rw k.same en)
              (Selects-same s s1 vs es (ap (λ (x : Fs). x.tags) k.same) sel))
            λ _ s2 k'. record {
              db' = k'.db';
              same = k'.same ∙ ap (λ x. with_db x k'.db') k.same;
              valid = k'.valid;
              view = λ m u. ground (arith, k'.view m u, k.view m u);
            }
    each_entry-Relinks n q b fun one s [] (_ ∷ _) valid en sel = absurd sel
    each_entry-Relinks n q b fun one s (_ ∷ _) [] valid en sel = absurd sel

    -- For a known file and selected tags, `path_unlink` on a valid store does not fault, returns 0,
    -- keeps the store valid, and takes exactly these tags from the file.
    pub path_unlink_lem :
        (s : Fs) (path : UserPath) (vs : List Bytes) (q : Ptr)
        → IsValid s
        → ht_get_entry s.files path.filename ≡ some q
        → Selects s vs (ht_entries path.selected_tags)
        → Returns (path_unlink path s) (λ r s'. (r ≡ pos 0) × Relinks s path.filename vs false s')
    unfolding path_unlink file_get each_entry
    path_unlink_lem s path vs q valid en sel =
        rw (en, ◌>>=◌)
          (Returns-bind (for_each (ht_entries path.selected_tags) (λ _ p. untag_file p q)) _ s
            (each_entry-Relinks path.filename q false (λ p. untag_file p q)
              (λ s' v p valid' ev en'. untag_file_lem s' path.filename v p q valid' ev en') s vs
              (ht_entries path.selected_tags) valid en sel)
            λ _ s' k. (pos 0, s', refl, (refl, k)))

    -- the loop of `path_link`
    pub tag_all_lem :
        (s : Fs) (path : UserPath) (n : Bytes) (vs : List Bytes) (q : Ptr)
        → IsValid s
        → ht_get_entry s.files n ≡ some q
        → Selects s vs (ht_entries path.selected_tags)
        → Returns
            (each_entry path.selected_tags (λ _ p. tag_file p q) s)
            (λ _ s'. Relinks s n vs true s')
    unfolding each_entry
    tag_all_lem s path n vs q valid en sel =
        each_entry-Relinks n q true (λ p. tag_file p q)
          (λ s' v p valid' ev en'. tag_file_lem s' n v p q valid' ev en') s vs
          (ht_entries path.selected_tags) valid en sel
