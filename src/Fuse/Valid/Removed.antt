-- ===== src/Fuse/Valid/Removed.antt =====
-- The store behind `tag_remove` is valid, and no file has the tag.
use tag_filesystem.Base.{
  ◌≡◌, ◌∙◌, refl, sym, ap, true, not, ◌&&◌, Option, none, some, Bytes, arith, is_some,
  if◌then◌else◌, str_eq, str_eq_iff, ◌==◌, ==_iff, Bool-cases, Option-cases, inl, inr,
}
use mathlib.Core.Option.{some-injective}
use tag_filesystem.Cutil.HashTable.{
  Ptr, Uthash, HashTable, IsUnique, ht_entries, ht_get_entry, Among-get, has-get,
}
use tag_filesystem.Fuse.Os.{Os}
use tag_filesystem.Fuse.State.{Tag, File, Fs, write}
use tag_filesystem.Fuse.Valid.Stripping.{visits, Among-visits, Loses, Strips, was, AllOpen-same}
use tag_filesystem.Fuse.Valid.{TagOk, FileOk, IsValid, has_tag}

module _ ⦃U : Uthash⦄ ⦃O : Os⦄ where
  -- the store behind `tag_remove`: a new table of tags, and another object at the address of the tag
  abbrev pub removed : Fs → HashTable → Fs → Ptr → Option Tag → Fs
  removed s table s₁ p c = record s₁ { tags = table; tag_at = write s.tag_at p c }

  -- the facts that the two branches of `tag_dec_ref` have in common
  pub record Removes (s s₁ : Fs) (table : HashTable) (v : Bytes) (p : Ptr) (t : Tag)
      (c : Option Tag) : Type 0 where
    pub registered : ht_get_entry s.tags v ≡ some p
    pub here : s.tag_at p ≡ some t
    pub named : t.value ≡ v
    pub strips : Strips s s₁ v (visits (ht_entries t.files))
    pub table_unique : IsUnique table
    pub table_get :
        (w : Bytes) → ht_get_entry table w ≡ (if str_eq v w then none else ht_get_entry s.tags w)
    pub same_table : (t' : Tag) → c ≡ some t' → t'.files ≡ t.files

  module _ {s s₁ : Fs} {table : HashTable} {v : Bytes} {p : Ptr} {t : Tag} {c : Option Tag}
      (valid : IsValid s) (k : Removes s s₁ table v p t c) where
    -- every file that has the tag is visited
    visited :
        (q : Ptr) (f : File)
        → s.file_at q ≡ some f
        → is_some (ht_get_entry f.tags v) ≡ true
        → visits (ht_entries t.files) q ≡ true
    visited q f ef has = elim (Option-cases (ht_get_entry t.files f.name)) [
      | inl e ↦ absurd (ground (arith, valid.mutual' v p t q f k.registered k.here ef))
      | inr (q', e) ↦
          let ok = valid.tag_ok p t k.here in
          let same : q' ≡ q =
            some-injective q' q (sym (ok.listed f.name q' e) ∙ (valid.file_ok q f ef).listed) in
          Among-visits f.name q (ht_entries t.files)
            ((Among-get t.files f.name q ok.unique).1 (e ∙ ap some same))
    ]

    -- the tables of the files are those of before, without the tag
    tags_get :
        (q : Ptr) (f f' : File)
        → s.file_at q ≡ some f
        → Loses f f' v (visits (ht_entries t.files) q)
        → (w : Bytes)
        → ht_get_entry f'.tags w ≡ (if str_eq v w then none else ht_get_entry f.tags w)
    tags_get q f f' ef l w = elim (Option-cases (ht_get_entry f.tags v)) [
      | inl e ↦ ground (arith, l.tags_get w, str_eq_iff v w)
      | inr (x, e) ↦ ground (arith, l.tags_get w, visited q f ef)
    ]

    removed-tag_named :
        (w : Bytes) (p' : Ptr)
        → ht_get_entry table w ≡ some p'
        → (t' : Tag) × (write s.tag_at p c p' ≡ some t') × (t'.value ≡ w)
    unfolding write
    removed-tag_named w p' e =
        let old : ht_get_entry s.tags w ≡ some p' = ground (arith, k.table_get w) in
        let (t', et, named) = valid.tag_named w p' old in
        (t', ground (arith, k.table_get w, ==_iff p' p, k.here, k.named, str_eq_iff v w), named)

    removed-TagOk :
        (p' : Ptr) (t' : Tag)
        → write s.tag_at p c p' ≡ some t'
        → TagOk (removed s table s₁ p c) p' t'
    unfolding write
    removed-TagOk p' t' e = elim (Bool-cases (p' == p)) [
      | inl same ↦
          let ok = valid.tag_ok p t k.here in
          let files : t'.files ≡ t.files = k.same_table t' (rw same at e) in
          record {
            fresh = rw (k.strips.same_next, (==_iff p' p).0 same) ok.fresh;
            unique = rw files ok.unique;
            listed = λ n q en. rw k.strips.same_files (ok.listed n q (rw files at en));
          }
      | inr other ↦
          let ok = valid.tag_ok p' t' (rw other at e) in
          record {
            fresh = rw k.strips.same_next ok.fresh;
            unique = ok.unique;
            listed = λ n q en. rw k.strips.same_files (ok.listed n q en);
          }
    ]

    removed-FileOk :
        (q : Ptr) (f' : File) → s₁.file_at q ≡ some f' → FileOk (removed s table s₁ p c) q f'
    removed-FileOk q f' e' =
        let (f, ef, l) = was q f' k.strips e' in
        let ok = valid.file_ok q f ef in
        record {
          fresh = rw k.strips.same_next ok.fresh;
          unique = l.unique;
          listed = rw (k.strips.same_files, l.same_name) ok.listed;
          tagged = λ w p' e. ground (arith, tags_get q f f' ef l w, k.table_get w, ok.tagged w p');
          open' = rw l.same_descriptors (
              AllOpen-same s (removed s table s₁ p c) (ht_entries f.descriptors) k.strips.same_fd_at
                ok.open');
        }

    removed-mutual :
        (w : Bytes) (p' : Ptr) (t' : Tag) (q : Ptr) (f' : File)
        → ht_get_entry table w ≡ some p'
        → write s.tag_at p c p' ≡ some t'
        → s₁.file_at q ≡ some f'
        → is_some (ht_get_entry t'.files f'.name) ≡ is_some (ht_get_entry f'.tags w)
    unfolding write
    removed-mutual w p' t' q f' ew et' e' =
        let (f, ef, l) = was q f' k.strips e' in
        let old : ht_get_entry s.tags w ≡ some p' = ground (arith, k.table_get w) in
        let (t'', e'', named) = valid.tag_named w p' old in
        let et : s.tag_at p' ≡ some t' =
          ground (arith, k.table_get w, ==_iff p' p, k.here, k.named, str_eq_iff v w) in
        rw l.same_name (
          ground
            (arith, valid.mutual' w p' t' q f old et ef, tags_get q f f' ef l w, k.table_get w))

    pub removed-IsValid : IsValid (removed s table s₁ p c)
    removed-IsValid = record {
      tags_unique = k.table_unique;
      files_unique = rw k.strips.same_files valid.files_unique;
      tag_named = removed-tag_named;
      file_named = λ n q e.
          let (f, ef, named) = valid.file_named n q (rw k.strips.same_files at e) in
          let (f', ef', l) = k.strips.kept q f ef in (f', ef', l.same_name ∙ named);
      tag_ok = removed-TagOk;
      file_ok = removed-FileOk;
      mutual' = removed-mutual;
    }

    -- no file has the tag any more, and every other pair is related as before
    pub has_tag-removed :
        (n w : Bytes) → has_tag (removed s table s₁ p c) n w ≡ (not (str_eq v w) && has_tag s n w)
    unfolding has_tag
    has_tag-removed n w =
        let same : ht_get_entry s₁.files n ≡ ht_get_entry s.files n = rw k.strips.same_files refl in
        elim (Option-cases (ht_get_entry s.files n)) [
          | inl e ↦ ground (arith, same)
          | inr (q, e) ↦
              let (f, ef, _) = valid.file_named n q e in
              let (f', ef', l) = k.strips.kept q f ef in
              ground (arith, same, tags_get q f f' ef l w, has-get f'.tags w, has-get f.tags w)
        ]
