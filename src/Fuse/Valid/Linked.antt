-- ===== src/Fuse/Valid/Linked.antt =====
-- A write that links a tag and a file, or takes the link away, keeps the store valid, and changes
-- the abstract view at that pair of names only.
use tag_filesystem.Base.{
  ℕ, ◌≡◌, refl, Bool, false, ◌&&◌, none, some, Bytes, arith, str_eq, str_eq_iff, is_some,
  if◌then◌else◌, ◌==◌, ==_iff, Bool-cases, Option-cases, inl, inr,
}
use tag_filesystem.Cutil.HashTable.{Ptr, Uthash, HashTable, IsUnique, ht_get_entry, has-get}
use tag_filesystem.Fuse.Os.{Os}
use tag_filesystem.Fuse.State.Writes.{write_elim}
use tag_filesystem.Fuse.State.{Tag, File, Fs, write}
use tag_filesystem.Fuse.Valid.Runs.{linked}
use tag_filesystem.Fuse.Valid.{TagOk, FileOk, IsValid, has_tag}

module _ ⦃U : Uthash⦄ ⦃O : Os⦄ where
  -- the facts that the two operations have in common; `b` says if there is a link afterwards
  pub record Relinks (s : Fs) (p q : Ptr) (t : Tag) (f : File) (files tags : HashTable) (b : Bool)
      : Type 0 where
    pub tag_here : s.tag_at p ≡ some t
    pub file_here : s.file_at q ≡ some f
    pub registered : ht_get_entry s.tags t.value ≡ some p
    pub files_unique : IsUnique files
    pub tags_unique : IsUnique tags
    pub files_get :
        (n : Bytes)
        → ht_get_entry files n
          ≡ (if str_eq f.name n then (if b then some q else none) else ht_get_entry t.files n)
    pub tags_get :
        (v : Bytes)
        → ht_get_entry tags v
          ≡ (if str_eq t.value v then (if b then some p else none) else ht_get_entry f.tags v)

  module _ {s : Fs} {p q : Ptr} {t : Tag} {f : File} {files tags : HashTable} {b : Bool}
      (valid : IsValid s) (k : Relinks s p q t f files tags b) (in_use : Bool) (r : ℕ)
      (w : O.World) where
    s' : Fs
    s' = linked s p q t f files tags in_use r w

    linked-TagOk : (p' : Ptr) (t' : Tag) → s'.tag_at p' ≡ some t' → TagOk s' p' t'
    unfolding s'
    linked-TagOk =
        write_elim (TagOk s') s.tag_at p (record t { files = files; in_use = in_use })
          (record {
            fresh = (valid.tag_ok p t k.tag_here).fresh;
            unique = k.files_unique;
            listed = λ n q' e. ground (
              arith,
              k.files_get n,
              (valid.tag_ok p t k.tag_here).listed n q',
              (valid.file_ok q f k.file_here).listed,
              str_eq_iff f.name n,
            );
          })
          (λ p' t' other e.
            let ok = valid.tag_ok p' t' e in
            record { fresh = ok.fresh; unique = ok.unique; listed = ok.listed })

    linked-FileOk : (q' : Ptr) (f' : File) → s'.file_at q' ≡ some f' → FileOk s' q' f'
    unfolding s'
    linked-FileOk =
        let ok = valid.file_ok q f k.file_here in
        write_elim (FileOk s') s.file_at q (record f { tags = tags; revents = r })
          (record {
            fresh = ok.fresh;
            unique = k.tags_unique;
            listed = ok.listed;
            tagged = λ v p' e.
                ground (arith, k.tags_get v, ok.tagged v p', k.registered, str_eq_iff t.value v);
            open' = ok.open';
          })
          (λ q' f' other e.
            let ok' = valid.file_ok q' f' e in
            record {
              fresh = ok'.fresh;
              unique = ok'.unique;
              listed = ok'.listed;
              tagged = ok'.tagged;
              open' = ok'.open';
            })

    linked-tag_named :
        (v : Bytes) (p' : Ptr)
        → ht_get_entry s'.tags v ≡ some p'
        → (t' : Tag) × (s'.tag_at p' ≡ some t') × (t'.value ≡ v)
    unfolding s' write
    linked-tag_named v p' e =
        let (t', et, en) = valid.tag_named v p' e in
        elim (Bool-cases (p' == p)) [
          | inl same ↦ (
            record t { files = files; in_use = in_use },
            rw same refl,
            ground (arith, ==_iff p' p, k.tag_here),
          )
          | inr other ↦ (t', rw other et, en)
        ]

    linked-file_named :
        (n : Bytes) (q' : Ptr)
        → ht_get_entry s'.files n ≡ some q'
        → (f' : File) × (s'.file_at q' ≡ some f') × (f'.name ≡ n)
    unfolding s' write
    linked-file_named n q' e =
        let (f', ef, en) = valid.file_named n q' e in
        elim (Bool-cases (q' == q)) [
          | inl same ↦ (
            record f { tags = tags; revents = r },
            rw same refl,
            ground (arith, ==_iff q' q, k.file_here),
          )
          | inr other ↦ (f', rw other ef, en)
        ]

    -- a tag that is in the table under `v`, against every file
    abbrev Agrees : Ptr → Tag → Ptr → File → Type 0
    Agrees p' t' q' f' =
        (v : Bytes)
        → ht_get_entry s.tags v ≡ some p'
        → is_some (ht_get_entry t'.files f'.name) ≡ is_some (ht_get_entry f'.tags v)

    new_new :
        Agrees p
          (record t { files = files; in_use = in_use })
          q
          (record f { tags = tags; revents = r })
    new_new v e =
        let (t₁, e₁, n₁) = valid.tag_named v p e in
        ground (
          arith,
          k.tag_here,
          k.files_get f.name,
          k.tags_get v,
          str_eq_iff f.name f.name,
          str_eq_iff t.value v,
        )

    new_old :
        (q' : Ptr) (f' : File)
        → (q' == q) ≡ false
        → s.file_at q' ≡ some f'
        → Agrees p (record t { files = files; in_use = in_use }) q' f'
    new_old q' f' other e v ev = ground (
      arith,
      k.files_get f'.name,
      str_eq_iff f.name f'.name,
      (valid.file_ok q f k.file_here).listed,
      (valid.file_ok q' f' e).listed,
      ==_iff q' q,
      valid.mutual' v p t q' f' ev k.tag_here e,
    )

    old_new :
        (p' : Ptr) (t' : Tag)
        → (p' == p) ≡ false
        → s.tag_at p' ≡ some t'
        → Agrees p' t' q (record f { tags = tags; revents = r })
    old_new p' t' other e v ev = ground (
      arith,
      k.tags_get v,
      str_eq_iff t.value v,
      k.registered,
      ==_iff p' p,
      valid.mutual' v p' t' q f ev e k.file_here,
    )

    linked-Agrees :
        (p' : Ptr) (t' : Tag)
        → s'.tag_at p' ≡ some t'
        → (q' : Ptr) (f' : File) → s'.file_at q' ≡ some f'
        → Agrees p' t' q' f'
    unfolding s'
    linked-Agrees =
        write_elim (λ p' t'. (q' : Ptr) (f' : File) → s'.file_at q' ≡ some f' → Agrees p' t' q' f')
          s.tag_at p (record t { files = files; in_use = in_use })
          (write_elim (Agrees p (record t { files = files; in_use = in_use })) s.file_at q _ new_new
            new_old)
          (λ p' t' other e.
            write_elim (Agrees p' t') s.file_at q _ (old_new p' t' other e)
              (λ q' f' _ e' v ev. valid.mutual' v p' t' q' f' ev e e'))

    pub linked-IsValid : IsValid (linked s p q t f files tags in_use r w)
    unfolding s'
    linked-IsValid = record {
      tags_unique = valid.tags_unique;
      files_unique = valid.files_unique;
      tag_named = linked-tag_named;
      file_named = linked-file_named;
      tag_ok = linked-TagOk;
      file_ok = linked-FileOk;
      mutual' = λ v p' t' q' f' ev et ef. linked-Agrees p' t' et q' f' ef v ev;
    }

    -- the view at the pair of names is `b`, and elsewhere it is what it was
    pub has_tag-linked :
        (n v : Bytes)
        → has_tag (linked s p q t f files tags in_use r w) n v
          ≡ (if str_eq f.name n && str_eq t.value v then b else has_tag s n v)
    unfolding has_tag write
    has_tag-linked n v = elim (Option-cases (ht_get_entry s.files n)) [
      | inl e ↦
          rw (e, has_tag)
            (ground (arith, (valid.file_ok q f k.file_here).listed, str_eq_iff f.name n))
      | inr (q', e) ↦
          let (f', e', named) = valid.file_named n q' e in
          ground (
            arith,
            has-get tags v,
            has-get f.tags v,
            k.tags_get v,
            k.file_here,
            (valid.file_ok q f k.file_here).listed,
            str_eq_iff f.name n,
            ==_iff q' q,
          )
    ]
