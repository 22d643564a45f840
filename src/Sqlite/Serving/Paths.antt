-- ===== src/Sqlite/Serving/Paths.antt =====
-- The operations of fuse_sqlite3/ on paths that are made, on any valid store.
use tag_filesystem.Base.Store.{◌>>=◌, pure, for_each}
use tag_filesystem.Base.{
  ◌+◌, ◌^◌, ◌<◌, ◌≤◌, ◌≡◌, ◌∙◌, refl, true, false, not, ◌&&◌, ◌||◌, Option, none, some, List, Bytes,
  codes, ℤ, pos, neg, arith, ltb, ◌==◌, is_negative, str_eq, if◌then◌else◌, Option-cases,
  Bool-cases, inl, inr,
}
use tag_filesystem.Cutil.HashTable.{
  Ptr, Uthash, HashTable, ht_get_entry, ht_entries, ht_entry_count, ht_has_entry,
}
use tag_filesystem.Fuse.Os.{Os, Stat, Result, done, failed}
use tag_filesystem.Fuse.Util.{tag_filename}
use tag_filesystem.Sqlite.Database.{Sqlite}
use tag_filesystem.Sqlite.File.{file_get, file_get_or_create}
use tag_filesystem.Sqlite.Links.{TagFile}
use tag_filesystem.Sqlite.State.{invalid_tag, UserPath, Fs, Cmd, load_tag, load_file, each_entry}
use tag_filesystem.Sqlite.Tag.{tag_exist, tag_file, untag_file}
use tag_filesystem.Sqlite.TagFs.Attr.{file_matches_tags, getattr_file, getattr_dir, getattr_intra}
use tag_filesystem.Sqlite.TagFs.Tagging.{path_unlink, path_link, rename_linked}
use tag_filesystem.Sqlite.Serving.Steps.{
  Safe, Safe-bind, Safe-mono, Safe-if, Goes, Goes-refl, Goes-Registers, Goes-trans, Goes-le,
  each_chosen, db_file_match_tags-any,
}
use tag_filesystem.Sqlite.Valid.Creation.{file_get_or_create_lem}
use tag_filesystem.Sqlite.Valid.Handling.{chosen-same}
use tag_filesystem.Sqlite.Valid.Linking.{tag_file_lem, untag_file_lem}
use tag_filesystem.Sqlite.Valid.Selection.{tag_of, chosen, tag_get-run}
use tag_filesystem.Sqlite.Valid.{IsValid}

module _ ⦃U : Uthash⦄ ⦃O : Os⦄ ⦃Q : Sqlite⦄ ⦃T : TagFile⦄ where
  file_matches_tags-any :
      (s : Fs) (q : Ptr) (selected : HashTable)
      → IsValid s
      → Safe (file_matches_tags q selected s) (λ _ s'. Goes 0 s s')
  unfolding file_matches_tags load_file
  file_matches_tags-any s q selected valid = elim (Option-cases (s.file_at q)) [
    | inl e ↦ inl (rw (e, ◌>>=◌) refl)
    | inr (f, e) ↦ rw (e, ◌>>=◌) (db_file_match_tags-any s f.id selected valid)
  ]

  getattr_file-any :
      (s : Fs) (path : UserPath) (st : Stat)
      → IsValid s
      → s.next_file < 2 ^ 31
      → Safe (getattr_file path st s) (λ _ s'. Goes 1 s s')
  unfolding getattr_file
  getattr_file-any s path st valid room =
      Safe-bind (file_get_or_create path.filename) _ s
        (inr (file_get_or_create_lem s path.filename valid room))
        λ q s1 k. elim (Bool-cases (ltb 0 (ht_entry_count path.selected_tags))) [
          | inl tagged ↦ rw tagged (
              Safe-bind (file_matches_tags q path.selected_tags) _ s1
                (file_matches_tags-any s1 q path.selected_tags k.valid)
                λ b s2 g. inr (_, _, refl, Goes-trans 1 0 (Goes-Registers k) g))
          | inr plain ↦ elim (Bool-cases (str_eq path.filename tag_filename)) [
            | inl e ↦ rw (plain, e) (inr (_, _, refl, Goes-Registers k))
            | inr e ↦ rw (plain, e) (inr (_, _, refl, Goes-Registers k))
          ]
        ]

  -- what `getattr_dir` does with the result of `stat`
  abbrev answer_dir : Option Stat → Result Stat → Cmd (ℤ × Option Stat)
  answer_dir written r = elim r [
    | done st ↦ pure (pos 0, some st)
    | failed e ↦ pure (neg 1, written)
  ]

  answer_dir-any :
      (s : Fs) (written : Option Stat) (r : Result Stat)
      → IsValid s
      → Safe (answer_dir written r s) (λ _ s'. Goes 0 s s')
  answer_dir-any s written (done st) valid = inr (_, _, refl, Goes-refl s valid)
  answer_dir-any s written (failed e) valid = inr (_, _, refl, Goes-refl s valid)

  getattr_dir-any :
      (s : Fs) (path : UserPath) (written : Option Stat)
      → IsValid s
      → Safe (getattr_dir path written s) (λ _ s'. Goes 0 s s')
  unfolding getattr_dir tag_exist
  getattr_dir-any s path written valid =
      let exist = not (tag_of s path.filename == invalid_tag) in
      elim (Bool-cases (
        str_eq path.virtpath (codes "/")
        || (exist && not (ht_has_entry path.selected_tags path.filename)))) [
          | inl e ↦
              rw (tag_get-run s path.filename, ◌>>=◌, e)
                (answer_dir-any s written (O.stat s.world O.realdirpath) valid)
          | inr e ↦ rw (tag_get-run s path.filename, ◌>>=◌, e) (inr (_, _, refl, Goes-refl s valid))
        ]

  -- what `getattr_intra` does with the result of `stat`
  abbrev answer_stat : UserPath → Result Stat → Cmd (ℤ × Option Stat)
  answer_stat path r = elim r [
    | failed e ↦ getattr_dir path none
    | done st ↦ if st.is_dir then getattr_dir path (some st) else getattr_file path st
  ]

  answer_stat-any :
      (s : Fs) (path : UserPath) (r : Result Stat)
      → IsValid s
      → s.next_file < 2 ^ 31
      → Safe (answer_stat path r s) (λ _ s'. Goes 1 s s')
  answer_stat-any s path (failed e) valid room =
      Safe-mono (getattr_dir-any s path none valid) λ _ s' g. Goes-le 0 1 (omega arith) g
  answer_stat-any s path (done st) valid room =
      Safe-if st.is_dir (getattr_dir path (some st)) (getattr_file path st) s
        (Safe-mono (getattr_dir-any s path (some st) valid) λ _ s' g. Goes-le 0 1 (omega arith) g)
        (getattr_file-any s path st valid room)

  pub getattr_intra-any :
      (s : Fs) (path : UserPath)
      → IsValid s
      → s.next_file < 2 ^ 31
      → Safe (getattr_intra path s) (λ _ s'. Goes 1 s s')
  unfolding getattr_intra
  getattr_intra-any s path valid room =
      answer_stat-any s path (O.stat s.world path.realpath) valid room

  untag_file-dead : (s : Fs) (q : Ptr) → IsValid s → untag_file invalid_tag q s ≡ none
  unfolding untag_file load_tag
  untag_file-dead s q valid = rw (valid.names.no_invalid, ◌>>=◌) refl

  tag_file-dead : (s : Fs) (q : Ptr) → IsValid s → tag_file invalid_tag q s ≡ none
  unfolding tag_file load_tag
  tag_file-dead s q valid = rw (valid.names.no_invalid, ◌>>=◌) refl

  pub path_unlink-any :
      (s : Fs) (path : UserPath) (ws : List Bytes)
      → IsValid s
      → ht_entries path.selected_tags ≡ chosen s ws
      → Safe (path_unlink path s) (λ _ s'. Goes 0 s s')
  unfolding path_unlink file_get each_entry
  path_unlink-any s path ws valid e = elim (Option-cases (ht_get_entry s.files path.filename)) [
    | inl new ↦ rw (new, ◌>>=◌) (inr (_, _, refl, Goes-refl s valid))
    | inr (q, en) ↦
        rw (en, ◌>>=◌, e)
          (Safe-bind (for_each (chosen s ws) (λ _ p. untag_file p q)) _ s
            (each_chosen path.filename q false (λ p. untag_file p q)
              (λ s' v p valid' ev en'. untag_file_lem s' path.filename v p q valid' ev en')
              (λ s' valid'. untag_file-dead s' q valid') s ws valid en)
            λ _ s' g. inr (_, _, refl, g))
  ]

  pub path_link-any :
      (s : Fs) (ffrom fto : UserPath) (ws : List Bytes)
      → IsValid s
      → s.next_file + 2 ≤ 2 ^ 31
      → ht_entries fto.selected_tags ≡ chosen s ws
      → Safe (path_link ffrom fto s) (λ _ s'. Goes 2 s s')
  unfolding path_link each_entry
  path_link-any s ffrom fto ws valid room e =
      Safe-bind (getattr_intra ffrom) _ s (getattr_intra-any s ffrom valid (omega arith)) λ r s1 g.
        Safe-if (is_negative r.0) _ _ s1 (inr (_, _, refl, Goes-le 1 2 (omega arith) g)) (
          Safe-bind (file_get_or_create ffrom.filename) _ s1
            (inr (file_get_or_create_lem s1 ffrom.filename g.valid (omega (arith, g.few.1))))
            λ q s2 k.
              let g' : Goes 2 s s2 = Goes-trans 1 1 g (Goes-Registers k) in
              rw (e ∙ chosen-same s s2 ws g'.tags) (
                Safe-bind (for_each (chosen s2 ws) (λ _ p. tag_file p q)) _ s2
                  (each_chosen ffrom.filename q true (λ p. tag_file p q)
                    (λ s' v p valid' ev en'. tag_file_lem s' ffrom.filename v p q valid' ev en')
                    (λ s' valid'. tag_file-dead s' q valid') s2 ws k.valid k.known)
                  λ _ s3 h. inr (_, _, refl, Goes-trans 2 0 g' h)))

  pub rename_linked-any :
      (s : Fs) (ffrom fto : UserPath) (ws us : List Bytes)
      → IsValid s
      → s.next_file + 2 ≤ 2 ^ 31
      → ht_entries ffrom.selected_tags ≡ chosen s ws
      → ht_entries fto.selected_tags ≡ chosen s us
      → Safe (rename_linked ffrom fto s) (λ _ s'. Goes 2 s s')
  unfolding rename_linked
  rename_linked-any s ffrom fto ws us valid room e e' =
      Safe-bind (path_unlink ffrom) _ s (path_unlink-any s ffrom ws valid e) λ _ s1 g.
        Safe-bind (path_link ffrom fto) _ s1
          (path_link-any s1 ffrom fto us g.valid (omega (arith, g.few.1))
            (e' ∙ chosen-same s s1 us g.tags))
          λ _ s2 g'. inr (_, _, refl, Goes-trans 0 2 g g')
