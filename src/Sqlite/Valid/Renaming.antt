-- ===== src/Sqlite/Valid/Renaming.antt =====
-- `tag_rename` of fuse_sqlite3/ between the directories of two tags.
use tag_filesystem.Base.Store.{◌>>=◌, Returns, Returns-bind}
use tag_filesystem.Base.{
  ◌^◌, ◌<◌, ◌≡◌, ◌∙◌, refl, ap, Bool, true, false, some, List, [], ◌∷◌, Bytes, arith, pos, neg,
  ◌==◌, str_eq, str_eq_refl, length,
}
use tag_filesystem.Cutil.HashTable.{
  Ptr, Uthash, HashTable, ht_get_entry, ht_entries, ht_entry_count, count-entries,
}
use tag_filesystem.Cutil.Libc.{slash}
use tag_filesystem.Cutil.String2.Split.{words}
use tag_filesystem.Fuse.Os.{Os, Stat, done}
use tag_filesystem.Fuse.Util.{enoent, basenamedup, dirnamedup, path_realpath}
use tag_filesystem.Fuse.Valid.Unlinking.{Distinct}
use tag_filesystem.Sqlite.Database.{Sqlite}
use tag_filesystem.Sqlite.Links.{TagFile}
use tag_filesystem.Sqlite.State.{UserPath, Fs}
use tag_filesystem.Sqlite.TagFs.Attr.{getattr_intra}
use tag_filesystem.Sqlite.TagFs.Tagging.{path_unlink, path_link, rename_linked, tag_rename}
use tag_filesystem.Sqlite.Valid.Getting.{getattr_known_lem}
use tag_filesystem.Sqlite.Valid.Linking.{with_db}
use tag_filesystem.Sqlite.Valid.LinkingAll.{Selects-same, Relinks, path_unlink_lem}
use tag_filesystem.Sqlite.Valid.Matching.{Selects, has_all, Asked}
use tag_filesystem.Sqlite.Valid.Selection.{path_of, chosen, path_create-run, chosen-Selects}
use tag_filesystem.Sqlite.Valid.{IsValid}

module _ ⦃U : Uthash⦄ ⦃O : Os⦄ ⦃Q : Sqlite⦄ ⦃T : TagFile⦄ where
  Relinks-Asked :
      {s s1 s2 : Fs} {n : Bytes} {vs : List Bytes} {b : Bool}
      → Relinks s n vs b s1
      → Asked s1 s2
      → Relinks s n vs b s2
  Relinks-Asked k a = record {
    db' = a.db';
    same = a.same ∙ ap (λ x. with_db x a.db') k.same;
    valid = a.valid;
    view = λ m u. a.view m u ∙ k.view m u;
  }

  -- `path_link` from a path whose file lacks a tag that it selects
  path_link-lacking :
      (s : Fs) (ffrom fto : UserPath) (st : Stat) (q : Ptr) (v : Bytes) (vs : List Bytes)
      → IsValid s
      → O.stat s.world ffrom.realpath ≡ done st
      → st.is_dir ≡ false
      → ht_get_entry s.files ffrom.filename ≡ some q
      → Distinct (v ∷ vs)
      → Selects s (v ∷ vs) (ht_entries ffrom.selected_tags)
      → length (v ∷ vs) < 2 ^ 32
      → has_all s ffrom.filename (v ∷ vs) ≡ false
      → Returns (path_link ffrom fto s) (λ r s'. (r ≡ neg enoent) × Asked s s')
  unfolding path_link
  path_link-lacking s ffrom fto st q v vs valid real plain en apart sel few lacks =
      Returns-bind (getattr_intra ffrom) _ s
        (getattr_known_lem s ffrom st q v vs valid real plain en apart sel few)
        λ r s' (e, k). (neg enoent, s', rw (e, lacks) refl, (refl, k))

  rename_linked_lem :
      (s : Fs) (ffrom fto : UserPath) (st : Stat) (q : Ptr) (v : Bytes) (vs : List Bytes)
      → IsValid s
      → O.stat s.world ffrom.realpath ≡ done st
      → st.is_dir ≡ false
      → ht_get_entry s.files ffrom.filename ≡ some q
      → Distinct (v ∷ vs)
      → Selects s (v ∷ vs) (ht_entries ffrom.selected_tags)
      → length (v ∷ vs) < 2 ^ 32
      → Returns
          (rename_linked ffrom fto s)
          (λ r s'. (r ≡ pos 0) × Relinks s ffrom.filename (v ∷ vs) false s')
  unfolding rename_linked
  rename_linked_lem s ffrom fto st q v vs valid real plain en apart sel few =
      Returns-bind (path_unlink ffrom) _ s (path_unlink_lem s ffrom (v ∷ vs) q valid en sel)
        λ _ s1 (_, k).
          let lacks : has_all s1 ffrom.filename (v ∷ vs) ≡ false =
            ground (arith, k.view ffrom.filename v, str_eq_refl ffrom.filename, str_eq_refl v) in
          Returns-bind (path_link ffrom fto) _ s1
            (path_link-lacking s1 ffrom fto st q v vs k.valid (rw k.same real) plain (rw k.same en)
              apart
              (Selects-same s s1 (v ∷ vs) (ht_entries ffrom.selected_tags)
                (ap (λ (x : Fs). x.tags) k.same) sel)
              few lacks)
            λ _ s2 (_, a). (pos 0, s2, refl, (refl, Relinks-Asked k a))

  -- the number of tags that a path with these words selects
  count-chosen :
      (s : Fs) (h : HashTable) (ws : List Bytes) (v : Bytes)
      → ht_entries h ≡ chosen s ws
      → ws ≡ v ∷ []
      → (ht_entry_count h == 1) ≡ true
  count-chosen s h ws v e one = rw (count-entries h, e, one) refl

  -- `tag_rename` of a known file from the directory of one tag to that of another name, on a valid
  -- store where the real file is no directory, does not fault, returns 0 and keeps the store valid;
  -- afterwards the file does not have the tag of the source, and every other pair of names is as
  -- before: it never gets the tag of the target.
  pub tag_rename-Relinks :
      (s : Fs) (from to : Bytes) (st : Stat) (v u : Bytes) (p q : Ptr)
      → IsValid s
      → O.stat s.world (path_realpath from) ≡ done st
      → st.is_dir ≡ false
      → str_eq (dirnamedup from) (b'.' ∷ []) ≡ false
      → str_eq (dirnamedup to) (b'.' ∷ []) ≡ false
      → words slash (dirnamedup from) ≡ v ∷ []
      → words slash (dirnamedup to) ≡ u ∷ []
      → ht_get_entry s.tags v ≡ some p
      → ht_get_entry s.files (basenamedup from) ≡ some q
      → Returns
          (tag_rename from to s)
          (λ r s'. (r ≡ pos 0) × Relinks s (basenamedup from) (v ∷ []) false s')
  unfolding tag_rename
  tag_rename-Relinks s from to st v u p q valid real plain from_dir to_dir from_tag to_tag ev en =
      let (h, run, e) = path_create-run s from from_dir in
      let (h', run', e') = path_create-run s to to_dir in
      rw
        (
          run,
          ◌>>=◌,
          run',
          count-chosen s h (words slash (dirnamedup from)) v e from_tag,
          count-chosen s h' (words slash (dirnamedup to)) u e' to_tag,
        )
        (rename_linked_lem s (path_of from h) (path_of to h') st q v [] valid real plain en
          (refl, tt) (rw (e, from_tag) (chosen-Selects s (v ∷ []) ((p, ev), tt))) (omega arith))
