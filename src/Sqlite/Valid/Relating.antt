-- ===== src/Sqlite/Valid/Relating.antt =====
-- `tag_link` and `tag_unlink` of fuse_sqlite3/, from the paths of the user to the relation.
use tag_filesystem.Base.Store.{◌>>=◌, Returns, Returns-bind, Returns-mono}
use tag_filesystem.Base.{
  ◌^◌, ◌<◌, ◌≡◌, ◌∙◌, refl, ap, Bool, true, false, ◌&&◌, ◌||◌, none, some, List, [], ◌∷◌, Bytes,
  arith, pos, neg, leb, str_eq, str_eq_iff, if◌then◌else◌, is_some, length, Option-cases,
  Bool-cases, inl, inr,
}
use tag_filesystem.Cutil.HashTable.{Ptr, Uthash, ht_get_entry, ht_entries}
use tag_filesystem.Cutil.Libc.{slash}
use tag_filesystem.Cutil.String2.Split.{words}
use tag_filesystem.Fuse.Os.{Os, Stat, done}
use tag_filesystem.Fuse.Util.{enoent, basenamedup, dirnamedup, path_realpath, get_character_count}
use tag_filesystem.Fuse.Valid.LinkAll.{is_one_of}
use tag_filesystem.Fuse.Valid.Unlinking.{Distinct}
use tag_filesystem.Sqlite.Database.{Sqlite}
use tag_filesystem.Sqlite.File.{file_get}
use tag_filesystem.Sqlite.Links.{TagFile}
use tag_filesystem.Sqlite.State.{UserPath, Fs, each_entry}
use tag_filesystem.Sqlite.Tag.{tag_file}
use tag_filesystem.Sqlite.TagFs.Attr.{getattr_intra}
use tag_filesystem.Sqlite.TagFs.Tagging.{path_unlink, tag_unlink, path_link, tag_link}
use tag_filesystem.Sqlite.Valid.Getting.{getattr_intra-file, file_get_or_create-known}
use tag_filesystem.Sqlite.Valid.Handling.{Meets, getattr_file_lem}
use tag_filesystem.Sqlite.Valid.Linking.{has_tag-unknown}
use tag_filesystem.Sqlite.Valid.LinkingAll.{Selects-same, Relinks, path_unlink_lem, tag_all_lem}
use tag_filesystem.Sqlite.Valid.Matching.{has_all}
use tag_filesystem.Sqlite.Valid.Selection.{
  chosen, path_of, path_create-run, AreKnown, chosen-Selects,
}
use tag_filesystem.Sqlite.Valid.{file_id, has_tag, IsValid}

module _ ⦃U : Uthash⦄ ⦃O : Os⦄ ⦃Q : Sqlite⦄ ⦃T : TagFile⦄ where
  has_tag-no_file : (s : Fs) (n u : Bytes) → ht_get_entry s.files n ≡ none → has_tag s n u ≡ false
  unfolding file_id
  has_tag-no_file s n u e = has_tag-unknown s n u (rw (e, file_id) refl)

  Relinks-unknown :
      (s : Fs) (n : Bytes) (vs : List Bytes)
      → IsValid s
      → ht_get_entry s.files n ≡ none
      → Relinks s n vs false s
  Relinks-unknown s n vs valid e = record {
    db' = s.db;
    same = refl;
    valid = valid;
    view = λ m u. ground (arith, has_tag-no_file s n u e, str_eq_iff n m);
  }

  path_unlink-both :
      (s : Fs) (path : UserPath) (vs : List Bytes)
      → IsValid s
      → ht_entries path.selected_tags ≡ chosen s vs
      → AreKnown s vs
      → Returns (path_unlink path s) (λ r s'.
        (r ≡ (if is_some (ht_get_entry s.files path.filename) then pos 0 else neg enoent))
        × Relinks s path.filename vs false s')
  unfolding path_unlink file_get
  path_unlink-both s path vs valid e known =
      elim (Option-cases (ht_get_entry s.files path.filename)) [
        | inl new ↦ (
          neg enoent,
          s,
          rw (new, ◌>>=◌) refl,
          (rw new refl, Relinks-unknown s path.filename vs valid new),
        )
        | inr (q, en) ↦
            Returns-mono (path_unlink_lem s path vs q valid en (rw e (chosen-Selects s vs known)))
              λ r s' (er, k). (rw en er, k)
      ]

  -- `tag_unlink` of a path with at least two slashes whose directory part is not "." and names tags, on
  -- a valid store, does not fault, keeps the store valid and changes nothing but the database; it
  -- returns 0 if the file is known and -ENOENT if not; afterwards the file has none of these tags, and
  -- every other pair of names is as before.
  pub tag_unlink-Relinks :
      (s : Fs) (user_path : Bytes)
      → IsValid s
      → leb (get_character_count user_path b'/') 1 ≡ false
      → str_eq (dirnamedup user_path) (b'.' ∷ []) ≡ false
      → AreKnown s (words slash (dirnamedup user_path))
      → Returns (tag_unlink user_path s) (λ r s'.
        (r ≡ (if is_some (ht_get_entry s.files (basenamedup user_path)) then pos 0 else neg enoent))
        × Relinks s (basenamedup user_path) (words slash (dirnamedup user_path)) false s')
  unfolding tag_unlink
  tag_unlink-Relinks s user_path valid deep dir known =
      let (h, run, e) = path_create-run s user_path dir in
      rw (deep, run, ◌>>=◌)
        (path_unlink-both s (path_of user_path h) (words slash (dirnamedup user_path)) valid e
          known)

  -- the store `s'` is valid, knows the file and has the same tags; if `all` holds, the file has the
  -- tags `tos` in addition, and the relation is otherwise as in `s`
  pub record Gains (s : Fs) (n : Bytes) (all : Bool) (tos : List Bytes) (s' : Fs) : Type 0 where
    pub valid : IsValid s'
    pub known : (q : Ptr) × (ht_get_entry s'.files n ≡ some q)
    pub tags : s'.tags ≡ s.tags
    pub view :
        (m u : Bytes) → has_tag s' m u ≡ ((all && (str_eq n m && is_one_of u tos)) || has_tag s m u)

  Gains-Meets : {s s' : Fs} {n : Bytes} (tos : List Bytes) → Meets s n s' → Gains s n false tos s'
  Gains-Meets tos k = record {
    valid = k.valid;
    known = k.known;
    tags = k.tags;
    view = λ m u. k.view m u;
  }

  Gains-Relinks :
      {s s1 s' : Fs} {n : Bytes} {tos : List Bytes}
      → Meets s n s1
      → Relinks s1 n tos true s'
      → Gains s n true tos s'
  Gains-Relinks k l =
      let (q, en) = k.known in
      record {
        valid = l.valid;
        known = (q, rw l.same en);
        tags = ap (λ (x : Fs). x.tags) l.same ∙ k.tags;
        view = λ m u. ground (arith, l.view m u, k.view m u);
      }

  getattr_plain :
      (s : Fs) (path : UserPath) (st : Stat) (v : Bytes) (vs : List Bytes)
      → IsValid s
      → s.next_file < 2 ^ 31
      → O.stat s.world path.realpath ≡ done st
      → st.is_dir ≡ false
      → ht_entries path.selected_tags ≡ chosen s (v ∷ vs)
      → Distinct (v ∷ vs)
      → AreKnown s (v ∷ vs)
      → length (v ∷ vs) < 2 ^ 32
      → Returns (getattr_intra path s) (λ r s'.
        (r ≡ (if has_all s path.filename (v ∷ vs) then pos 0 else neg enoent, some st))
        × Meets s path.filename s')
  getattr_plain s path st v vs valid room real plain e apart known few =
      rw (getattr_intra-file s path st real plain)
        (getattr_file_lem s path st v vs valid room e apart known few)

  path_link-Gains :
      (s : Fs) (ffrom fto : UserPath) (st : Stat) (v : Bytes) (vs tos : List Bytes)
      → IsValid s
      → s.next_file < 2 ^ 31
      → O.stat s.world ffrom.realpath ≡ done st
      → st.is_dir ≡ false
      → ht_entries ffrom.selected_tags ≡ chosen s (v ∷ vs)
      → ht_entries fto.selected_tags ≡ chosen s tos
      → Distinct (v ∷ vs)
      → AreKnown s (v ∷ vs)
      → AreKnown s tos
      → length (v ∷ vs) < 2 ^ 32
      → Returns (path_link ffrom fto s) (λ r s'.
        (r ≡ (if has_all s ffrom.filename (v ∷ vs) then pos 0 else neg enoent))
        × Gains s ffrom.filename (has_all s ffrom.filename (v ∷ vs)) tos s')
  unfolding path_link
  path_link-Gains s ffrom fto st v vs tos valid room real plain e e' apart known known' few =
      let n = ffrom.filename in
      Returns-bind (getattr_intra ffrom) _ s
        (getattr_plain s ffrom st v vs valid room real plain e apart known few)
        λ r s1 (er, k).
          let (q, en) = k.known in
          elim (Bool-cases (has_all s n (v ∷ vs))) [
            | inr lacks ↦
                (neg enoent, s1, rw (er, lacks) refl, (rw lacks refl, rw lacks (Gains-Meets tos k)))
            | inl all ↦
                rw (er, all, file_get_or_create-known s1 n q en, ◌>>=◌)
                  (Returns-bind (each_entry fto.selected_tags (λ _ p. tag_file p q)) _ s1
                    (tag_all_lem s1 fto n tos q k.valid en (
                      Selects-same s s1 tos (ht_entries fto.selected_tags) k.tags
                        (rw e' (chosen-Selects s tos known'))))
                    λ _ s2 l. (r.0, s2, refl, (ap (λ x. x.0) er ∙ rw all refl, Gains-Relinks k l)))
          ]

  -- `tag_link` from a path whose directory part names different tags, at least one, and whose last part
  -- is a real file that is no directory, to a path whose directory part names tags, both parts not ".",
  -- on a valid store with a number left, does not fault and keeps the store valid; it knows the file
  -- afterwards. If the file has all tags of the source it returns 0, the file has those of the target
  -- in addition, and every other pair of names is as before; if not, it returns -ENOENT and no pair
  -- changes.
  pub tag_link-Gains :
      (s : Fs) (from to : Bytes) (st : Stat) (v : Bytes) (vs : List Bytes)
      → IsValid s
      → s.next_file < 2 ^ 31
      → O.stat s.world (path_realpath from) ≡ done st
      → st.is_dir ≡ false
      → str_eq (dirnamedup from) (b'.' ∷ []) ≡ false
      → str_eq (dirnamedup to) (b'.' ∷ []) ≡ false
      → words slash (dirnamedup from) ≡ v ∷ vs
      → Distinct (v ∷ vs)
      → AreKnown s (v ∷ vs)
      → AreKnown s (words slash (dirnamedup to))
      → length (v ∷ vs) < 2 ^ 32
      → Returns (tag_link from to s) (λ r s'.
        (r ≡ (if has_all s (basenamedup from) (v ∷ vs) then pos 0 else neg enoent))
        × Gains s
            (basenamedup from)
            (has_all s (basenamedup from) (v ∷ vs))
            (words slash (dirnamedup to))
            s')
  unfolding tag_link
  tag_link-Gains s from to st v vs valid room real plain from_dir to_dir named apart known known'
        few =
      let (h, run, e) = path_create-run s from from_dir in
      let (h', run', e') = path_create-run s to to_dir in
      rw (run, ◌>>=◌, run')
        (path_link-Gains s (path_of from h) (path_of to h') st v vs (words slash (dirnamedup to))
          valid room real plain (e ∙ ap (chosen s) named) e' apart known known' few)
