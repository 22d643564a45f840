-- ===== src/Sqlite/Valid/Removing.antt =====
-- `tag_remove` of fuse_sqlite3/ on a valid store, and `tag_rmdir` of a tag: the database keeps the
-- rows of the tag.
use tag_filesystem.Base.Store.{write, ◌>>=◌, Returns, Returns-bind, write_elsewhere}
use tag_filesystem.Base.{
  ◌<◌, ◌≡◌, ◌∙◌, refl, false, not, ◌&&◌, none, some, Bytes, arith, pos, ltb, ◌==◌, ==_iff, str_eq,
  str_eq_iff, if◌then◌else◌, Option-cases, Bool-cases, inl, inr,
}
use tag_filesystem.Cutil.HashTable.{
  Ptr, Uthash, ht_get_entry, ht_remove_entry, IsUnique-remove, get-remove,
}
use tag_filesystem.Fuse.Os.{Os}
use tag_filesystem.Fuse.Util.{get_character_count, basenamedup}
use tag_filesystem.Sqlite.Database.{Sqlite}
use tag_filesystem.Sqlite.Links.{TagFile}
use tag_filesystem.Sqlite.State.{Tag, Fs, free_tag}
use tag_filesystem.Sqlite.Tag.{tag_remove}
use tag_filesystem.Sqlite.TagFs.Tagging.{rmdir_tag, tag_rmdir}
use tag_filesystem.Sqlite.Valid.Linking.{load_tag-run, has_tag-no_tag, has_tag-same}
use tag_filesystem.Sqlite.Valid.Making.{tag_get-known, live}
use tag_filesystem.Sqlite.Valid.{tag_id, file_id, has_tag, Names, Few, IsValid}

module _ ⦃U : Uthash⦄ ⦃O : Os⦄ ⦃Q : Sqlite⦄ where
  free_tag-run :
      (s : Fs) (p : Ptr) (t : Tag)
      → s.tag_at p ≡ some t
      → free_tag p s ≡ some (tt, record s { tag_at = write s.tag_at p none })
  unfolding free_tag
  free_tag-run s p t e = rw (e, free_tag) refl

  -- the store without this tag
  abbrev without_tag : Fs → Bytes → Ptr → Fs
  without_tag s v p = record s {
    tags = (ht_remove_entry s.tags v).1;
    tag_at = write s.tag_at p none;
  }

  module _ (s : Fs) (v : Bytes) (p : Ptr) (k : Names s)
      (known : ht_get_entry s.tags v ≡ some p) where
    without-get :
        (u : Bytes)
        → ht_get_entry (without_tag s v p).tags u
          ≡ (if str_eq v u then none else ht_get_entry s.tags u)
    without-get u = get-remove s.tags v u k.tags_unique

    -- another tag has another address
    other_tag_at :
        (u : Bytes) (r : Ptr)
        → str_eq v u ≡ false
        → ht_get_entry s.tags u ≡ some r
        → (without_tag s v p).tag_at r ≡ s.tag_at r
    other_tag_at u r apart e =
        let (t, et, named, _) = k.tag_ok v p known in
        let (t', et', named', _) = k.tag_ok u r e in
        elim (Bool-cases (r == p)) [
          | inl same ↦ absurd (ground (arith, ==_iff r p, str_eq_iff v u))
          | inr other ↦ write_elsewhere s.tag_at p r none other
        ]

    without-id :
        (u : Bytes) → tag_id (without_tag s v p) u ≡ (if str_eq v u then none else tag_id s u)
    unfolding tag_id
    without-id u = elim (Bool-cases (str_eq v u)) [
      | inl same ↦ rw (without-get u, same, tag_id) refl
      | inr apart ↦ elim (Option-cases (ht_get_entry s.tags u)) [
        | inl e ↦ rw (without-get u, apart, e, tag_id) refl
        | inr (r, e) ↦ rw (without-get u, apart, e, tag_id, other_tag_at u r apart e) refl
      ]
    ]

    without-ok :
        (u : Bytes) (r : Ptr)
        → ht_get_entry (without_tag s v p).tags u ≡ some r
        → (t : Tag) × ((without_tag s v p).tag_at r ≡ some t) × (t.value ≡ u) × (t.id < s.next_tag)
    without-ok u r e =
        let apart : str_eq v u ≡ false = ground (arith, without-get u) in
        let old : ht_get_entry s.tags u ≡ some r = ground (arith, without-get u) in
        let (t, et, named, below) = k.tag_ok u r old in
        (t, other_tag_at u r apart old ∙ et, named, below)

    -- no address comes to life
    without-dead : (r : Ptr) → s.tag_at r ≡ none → (without_tag s v p).tag_at r ≡ none
    unfolding write
    without-dead r e = ground arith

    without-Names : Names (without_tag s v p)
    unfolding file_id
    without-Names = record {
      tags_unique = IsUnique-remove s.tags v k.tags_unique;
      files_unique = k.files_unique;
      tag_ok = without-ok;
      file_ok = k.file_ok;
      tags_apart = λ a b i ea eb. ground (arith, without-id a, without-id b, k.tags_apart a b i);
      files_apart = k.files_apart;
      tags_bound = k.tags_bound;
      files_bound = k.files_bound;
      no_invalid = without-dead _ k.no_invalid;
      no_null = without-dead 0 k.no_null;
      started = k.started;
      tags_fresh = λ r h. without-dead r (k.tags_fresh r h);
      files_fresh = k.files_fresh;
    }

    without-view :
        ⦃T : TagFile⦄ (m u : Bytes)
        → has_tag (without_tag s v p) m u ≡ (not (str_eq v u) && has_tag s m u)
    unfolding file_id
    without-view m u = elim (Bool-cases (str_eq v u)) [
      | inl here ↦
          has_tag-no_tag (without_tag s v p) m u (without-id u ∙ rw here refl) ∙ rw here refl
      | inr apart ↦
          has_tag-same s (without_tag s v p) m u refl (without-id u ∙ rw apart refl) (λ t f. refl)
          ∙ rw apart refl
    ]

  module _ ⦃T : TagFile⦄ where
    -- the name is no tag in the valid store `s'`, no file has it, and everything else is as in `s`, the
    -- whole database included
    pub record Removes (s : Fs) (v : Bytes) (s' : Fs) : Type 0 where
      pub valid : IsValid s'
      pub tags :
          (u : Bytes)
          → ht_get_entry s'.tags u ≡ (if str_eq v u then none else ht_get_entry s.tags u)
      pub files : s'.files ≡ s.files
      pub database : s'.db ≡ s.db
      pub few : Few 1 s s'
      pub view : (m u : Bytes) → has_tag s' m u ≡ (not (str_eq v u) && has_tag s m u)

    pub tag_remove_lem :
        (s : Fs) (v : Bytes) (p : Ptr)
        → IsValid s
        → ht_get_entry s.tags v ≡ some p
        → Returns (tag_remove p s) (λ _ s'. Removes s v s')
    unfolding tag_remove
    tag_remove_lem s v p valid known =
        let (t, et, named, _) = valid.names.tag_ok v p known in
        (
          tt,
          without_tag s v p,
          rw (load_tag-run s p t et, ◌>>=◌, named)
              (free_tag-run (record s { tags = (ht_remove_entry s.tags v).1 }) p t et),
          record {
            valid = record { names = without-Names s v p valid.names known; links = valid.links };
            tags = without-get s v p valid.names known;
            files = refl;
            database = refl;
            few = (omega arith, omega arith, omega arith);
            view = without-view s v p valid.names known;
          },
        )

    -- `tag_rmdir` of a path with at most one slash whose name is a tag, on a valid store, does not
    -- fault, returns 0 and keeps the store valid; the name is no tag afterwards and no file has it,
    -- every other name and pair is as before, and the database is not changed at all: it keeps the
    -- name and the links of the tag.
    pub tag_rmdir-Removes :
        (s : Fs) (user_path : Bytes) (p : Ptr)
        → IsValid s
        → ltb 1 (get_character_count user_path b'/') ≡ false
        → ht_get_entry s.tags (basenamedup user_path) ≡ some p
        → Returns
            (tag_rmdir user_path s)
            (λ r s'. (r ≡ pos 0) × Removes s (basenamedup user_path) s')
    unfolding tag_rmdir rmdir_tag
    tag_rmdir-Removes s user_path p valid flat known =
        let v = basenamedup user_path in
        rw
          (
            flat,
            tag_get-known s v p known,
            ◌>>=◌,
            live s v p 0 valid.names known valid.names.no_null,
          )
          (Returns-bind (tag_remove p) _ s (tag_remove_lem s v p valid known)
            λ _ s' k. (pos 0, s', refl, (refl, k)))
