-- ===== src/Fuse/Valid/Creation.antt =====
-- Changes of the store that leave the relation between names alone: new counts of a tag, a new tag,
-- a new file.
use tag_filesystem.Base.{
  ℕ, ◌+◌, ◌≡◌, refl, Bool, none, some, Bytes, arith, str_eq, str_eq_iff, if◌then◌else◌, is_some,
  ◌==◌, ==_iff, Bool-cases, Option-cases, inl, inr,
}
use tag_filesystem.Cutil.HashTable.{
  Ptr, Uthash, ht_create, ht_get_entry, ht_add_entry, IsUnique-create, IsUnique-add, get-create,
  get-add, has-get, entries-create,
}
use tag_filesystem.Fuse.Os.{Os}
use tag_filesystem.Fuse.State.Writes.{write_elim}
use tag_filesystem.Fuse.State.{Tag, File, Fs, write, put_tag}
use tag_filesystem.Fuse.Valid.{TagOk, FileOk, IsValid, has_tag}

module _ ⦃U : Uthash⦄ ⦃O : Os⦄ where
  module _ {s : Fs} (valid : IsValid s) (p : Ptr) {t : Tag} (et : s.tag_at p ≡ some t)
      (in_use : Bool) (count : ℕ) where
    recount : Tag
    recount = record t { in_use = in_use; ref_count = count }

    -- the marks and the count of a tag are no part of the invariant
    pub recount-IsValid :
        IsValid (put_tag p (some (record t { in_use = in_use; ref_count = count })) s)
    unfolding recount write
    recount-IsValid =
        let s' : Fs = put_tag p (some recount) s in
        record {
          tags_unique = valid.tags_unique;
          files_unique = valid.files_unique;
          tag_named = λ v p' e.
              let (t', e', named) = valid.tag_named v p' e in
              elim (Bool-cases (p' == p)) [
                | inl same ↦ (recount, rw same refl, ground (arith, ==_iff p' p))
                | inr other ↦ (t', rw other e', named)
              ];
          file_named = valid.file_named;
          tag_ok =
              write_elim (TagOk s') s.tag_at p recount
                (let ok = valid.tag_ok p t et in
                  record { fresh = ok.fresh; unique = ok.unique; listed = ok.listed })
                (λ p' t' _ e.
                  let ok = valid.tag_ok p' t' e in
                  record { fresh = ok.fresh; unique = ok.unique; listed = ok.listed });
          file_ok = λ q f e.
              let ok = valid.file_ok q f e in
              record {
                fresh = ok.fresh;
                unique = ok.unique;
                listed = ok.listed;
                tagged = ok.tagged;
                open' = ok.open';
              };
          mutual' = λ v p' t' q f ev e ef.
              write_elim
                (λ p' t'.
                  ht_get_entry s.tags v ≡ some p'
                  → is_some (ht_get_entry t'.files f.name) ≡ is_some (ht_get_entry f.tags v))
                s.tag_at p recount (λ ev. valid.mutual' v p t q f ev et ef)
                (λ p' t' _ e ev. valid.mutual' v p' t' q f ev e ef) p' t' e ev;
        }

  -- the store behind `tag_new` and `ht_add_entry(tags, value, t)`
  abbrev pub with_tag : Fs → Bytes → Bool → Fs
  with_tag s value in_use = record s {
    tags = (ht_add_entry s.tags value s.next).1;
    tag_at =
        write s.tag_at s.next
          (some (record { value = value; files = ht_create; in_use = in_use; ref_count = 0 }));
    next = s.next + 1;
  }

  module _ {s : Fs} (valid : IsValid s) (value : Bytes) (in_use : Bool)
      (absent : ht_get_entry s.tags value ≡ none) where
    tags_get :
        (v : Bytes)
        → ht_get_entry (with_tag s value in_use).tags v
          ≡ (if str_eq value v then some s.next else ht_get_entry s.tags v)
    tags_get v = get-add s.tags value v s.next valid.tags_unique absent

    new-TagOk :
        TagOk
          (with_tag s value in_use)
          s.next
          (record { value = value; files = ht_create; in_use = in_use; ref_count = 0 })
    new-TagOk = record {
      fresh = omega arith;
      unique = IsUnique-create;
      listed = λ n q e. ground (arith, get-create n);
    }

    with_tag-tag_named :
        (v : Bytes) (p : Ptr)
        → ht_get_entry (with_tag s value in_use).tags v ≡ some p
        → (t : Tag) × ((with_tag s value in_use).tag_at p ≡ some t) × (t.value ≡ v)
    unfolding write
    with_tag-tag_named v p e = elim (Bool-cases (str_eq value v)) [
      | inl same ↦ (
        record { value = value; files = ht_create; in_use = in_use; ref_count = 0 },
        ground (arith, tags_get v, ==_iff p s.next),
        (str_eq_iff value v).0 same,
      )
      | inr other ↦
          let (t, et, named) = valid.tag_named v p (ground (arith, tags_get v)) in
          (t, ground (arith, ==_iff p s.next, (valid.tag_ok p t et).fresh), named)
    ]

    with_tag-FileOk :
        (q : Ptr) (f : File) → s.file_at q ≡ some f → FileOk (with_tag s value in_use) q f
    with_tag-FileOk q f e =
        let ok = valid.file_ok q f e in
        record {
          fresh = omega (arith, ok.fresh);
          unique = ok.unique;
          listed = ok.listed;
          tagged = λ v p ev. ground (arith, tags_get v, ok.tagged v p ev, str_eq_iff value v);
          open' = ok.open';
        }

    with_tag-mutual :
        (v : Bytes) (q : Ptr) (f : File)
        → s.file_at q ≡ some f
        → (p : Ptr) (t : Tag) → (with_tag s value in_use).tag_at p ≡ some t
        → ht_get_entry (with_tag s value in_use).tags v ≡ some p
        → is_some (ht_get_entry t.files f.name) ≡ is_some (ht_get_entry f.tags v)
    with_tag-mutual v q f ef =
        let ok = valid.file_ok q f ef in
        write_elim
          (λ p t.
            ht_get_entry (with_tag s value in_use).tags v ≡ some p
            → is_some (ht_get_entry t.files f.name) ≡ is_some (ht_get_entry f.tags v))
          s.tag_at s.next _
          (λ ev. elim (Option-cases (ht_get_entry f.tags v)) [
            | inl e ↦ ground (arith, get-create f.name)
            | inr (p', e) ↦
                let (t', et', named) = valid.tag_named v p' (ok.tagged v p' e) in
                ground (
                  arith,
                  tags_get v,
                  ok.tagged v p' e,
                  str_eq_iff value v,
                  (valid.tag_ok p' t' et').fresh,
                )
          ])
          (λ p t _ et ev.
            valid.mutual' v p t q f (ground (arith, tags_get v, (valid.tag_ok p t et).fresh)) et ef)

    pub with_tag-IsValid : IsValid (with_tag s value in_use)
    with_tag-IsValid = record {
      tags_unique = IsUnique-add s.tags value s.next valid.tags_unique absent;
      files_unique = valid.files_unique;
      tag_named = with_tag-tag_named;
      file_named = valid.file_named;
      tag_ok = write_elim (TagOk (with_tag s value in_use)) s.tag_at s.next _ new-TagOk (λ p t _ e.
          let ok = valid.tag_ok p t e in
          record { fresh = omega (arith, ok.fresh); unique = ok.unique; listed = ok.listed });
      file_ok = with_tag-FileOk;
      mutual' = λ v p t q f ev et ef. with_tag-mutual v q f ef p t et ev;
    }

  -- the store behind `file_new` and `ht_add_entry(files, value, t)`
  abbrev pub with_file : Fs → File → Fs
  with_file s f = record s {
    files = (ht_add_entry s.files f.name s.next).1;
    file_at = write s.file_at s.next (some f);
    next = s.next + 1;
  }

  module _ {s : Fs} (valid : IsValid s) (new : File) (no_tags : new.tags ≡ ht_create)
      (no_descriptors : new.descriptors ≡ ht_create)
      (absent : ht_get_entry s.files new.name ≡ none) where
    files_get :
        (n : Bytes)
        → ht_get_entry (with_file s new).files n
          ≡ (if str_eq new.name n then some s.next else ht_get_entry s.files n)
    files_get n = get-add s.files new.name n s.next valid.files_unique absent

    new-FileOk : FileOk (with_file s new) s.next new
    new-FileOk = record {
      fresh = omega arith;
      unique = rw no_tags IsUnique-create;
      listed = ground (arith, files_get new.name, str_eq_iff new.name new.name);
      tagged = λ v p e. ground (arith, get-create v);
      open' = rw (no_descriptors, entries-create) tt;
    }

    with_file-file_named :
        (n : Bytes) (q : Ptr)
        → ht_get_entry (with_file s new).files n ≡ some q
        → (f : File) × ((with_file s new).file_at q ≡ some f) × (f.name ≡ n)
    unfolding write
    with_file-file_named n q e = elim (Bool-cases (str_eq new.name n)) [
      | inl same ↦
          (new, ground (arith, files_get n, ==_iff q s.next), (str_eq_iff new.name n).0 same)
      | inr other ↦
          let (f, ef, named) = valid.file_named n q (ground (arith, files_get n)) in
          (f, ground (arith, ==_iff q s.next, (valid.file_ok q f ef).fresh), named)
    ]

    with_file-mutual :
        (v : Bytes) (p : Ptr) (t : Tag)
        → ht_get_entry s.tags v ≡ some p
        → s.tag_at p ≡ some t
        → (q : Ptr) (f : File) → (with_file s new).file_at q ≡ some f
        → is_some (ht_get_entry t.files f.name) ≡ is_some (ht_get_entry f.tags v)
    with_file-mutual v p t ev et =
        write_elim (λ q f. is_some (ht_get_entry t.files f.name) ≡ is_some (ht_get_entry f.tags v))
          s.file_at s.next new
          (elim (Option-cases (ht_get_entry t.files new.name)) [
            | inl e ↦ ground (arith, get-create v)
            | inr (q, e) ↦ ground (arith, (valid.tag_ok p t et).listed new.name q e)
          ])
          (λ q f _ ef. valid.mutual' v p t q f ev et ef)

    pub with_file-IsValid : IsValid (with_file s new)
    with_file-IsValid = record {
      tags_unique = valid.tags_unique;
      files_unique = IsUnique-add s.files new.name s.next valid.files_unique absent;
      tag_named = valid.tag_named;
      file_named = with_file-file_named;
      tag_ok = λ p t e.
          let ok = valid.tag_ok p t e in
          record {
            fresh = omega (arith, ok.fresh);
            unique = ok.unique;
            listed = λ n q en. ground (arith, files_get n, ok.listed n q en, str_eq_iff new.name n);
          };
      file_ok = write_elim (FileOk (with_file s new)) s.file_at s.next new new-FileOk (λ q f _ e.
          let ok = valid.file_ok q f e in
          record {
            fresh = omega (arith, ok.fresh);
            unique = ok.unique;
            listed = ground (arith, files_get f.name, ok.listed, str_eq_iff new.name f.name);
            tagged = ok.tagged;
            open' = ok.open';
          });
      mutual' = λ v p t q f ev et ef. with_file-mutual v p t ev et q f ef;
    }

    -- a new file has no tag
    pub has_tag-with_file : (n v : Bytes) → has_tag (with_file s new) n v ≡ has_tag s n v
    unfolding has_tag write
    has_tag-with_file n v = elim (Option-cases (ht_get_entry s.files n)) [
      | inl e ↦ ground (arith, files_get n, has-get new.tags v, get-create v, str_eq_iff new.name n)
      | inr (q, e) ↦
          let (f, ef, named) = valid.file_named n q e in
          ground (
            arith,
            files_get n,
            str_eq_iff new.name n,
            ==_iff q s.next,
            (valid.file_ok q f ef).fresh,
          )
    ]
