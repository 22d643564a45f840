-- ===== src/Sqlite/Valid/Tags.antt =====
-- `tag_get_or_create` of fuse_sqlite3/ on a valid store.
use tag_filesystem.Base.Store.{write, ◌>>=◌, Returns, write_at, write_elsewhere}
use tag_filesystem.Base.{
  ℕ, ◌+◌, ◌%◌, ◌^◌, ◌<◌, ◌≡◌, ◌∙◌, refl, sym, false, none, some, Bytes, arith, str_eq, str_eq_iff,
  if◌then◌else◌, Option-cases, Bool-cases, inl, inr,
}
use tag_filesystem.Cutil.HashTable.{Ptr, Uthash, ht_get_entry, ht_add_entry, IsUnique-add, get-add}
use tag_filesystem.Fuse.Os.{Os}
use tag_filesystem.Sqlite.Database.{Sqlite}
use tag_filesystem.Sqlite.Links.{TagFile}
use tag_filesystem.Sqlite.State.{invalid_tag, Tag, Fs, new_tag, db_bind_text, db_bind_int}
use tag_filesystem.Sqlite.Statements.{run_write, db_add_in, db_add_tag}
use tag_filesystem.Sqlite.Tag.{next_tag_id, tag_new, tag_get_or_create}
use tag_filesystem.Sqlite.Valid.Linking.{
  tag_id-known, has_tag-ids, has_tag-unknown, has_tag-no_tag, has_tag-same,
}
use tag_filesystem.Sqlite.Valid.{tag_id, file_id, has_tag, Names, Few, IsValid}

module _ ⦃U : Uthash⦄ ⦃O : Os⦄ ⦃Q : Sqlite⦄ where
  pub tag_id-none : (s : Fs) (v : Bytes) → ht_get_entry s.tags v ≡ none → tag_id s v ≡ none
  unfolding tag_id
  tag_id-none s v e = rw (e, tag_id) refl

  tag_id-bound : (s : Fs) (v : Bytes) (i : ℕ) → Names s → tag_id s v ≡ some i → i < s.next_tag
  tag_id-bound s v i k e = elim (Option-cases (ht_get_entry s.tags v)) [
    | inl missing ↦ absurd (ground (arith, tag_id-none s v missing))
    | inr (p, known) ↦
        let (t, et, _, below) = k.tag_ok v p known in ground (arith, tag_id-known s v p t known et)
  ]

  -- the store with a new tag
  abbrev new_tag_of : Fs → Bytes → Tag
  new_tag_of s v = record { id = s.next_tag; value = v }

  abbrev pub with_tag : Fs → Bytes → Q.Db → Fs
  with_tag s v d = record s {
    tags = (ht_add_entry s.tags v s.next).1;
    tag_at = write s.tag_at s.next (some (new_tag_of s v));
    next = s.next + 1;
    next_tag = (s.next_tag + 1) % 2 ^ 32;
    db = d;
  }

  module _ (s : Fs) (v : Bytes) (d : Q.Db) (k : Names s) (new : ht_get_entry s.tags v ≡ none) where
    with_tag-get :
        (u : Bytes)
        → ht_get_entry (with_tag s v d).tags u
          ≡ (if str_eq v u then some s.next else ht_get_entry s.tags u)
    with_tag-get u = get-add s.tags v u s.next k.tags_unique new

    old_tag_at :
        (u : Bytes) (p : Ptr)
        → ht_get_entry s.tags u ≡ some p
        → (with_tag s v d).tag_at p ≡ s.tag_at p
    old_tag_at u p e =
        let (t, et, _, _) = k.tag_ok u p e in
        write_elsewhere s.tag_at s.next p (some (new_tag_of s v)) (ground (arith, k.tags_fresh p))

    with_tag-id :
        (u : Bytes)
        → tag_id (with_tag s v d) u ≡ (if str_eq v u then some s.next_tag else tag_id s u)
    unfolding tag_id
    with_tag-id u = elim (Bool-cases (str_eq v u)) [
      | inl same ↦
          rw (with_tag-get u, same, tag_id, write_at s.tag_at s.next (some (new_tag_of s v))) refl
      | inr apart ↦ elim (Option-cases (ht_get_entry s.tags u)) [
        | inl e ↦ rw (with_tag-get u, apart, e, tag_id) refl
        | inr (p, e) ↦ rw (with_tag-get u, apart, e, tag_id, old_tag_at u p e) refl
      ]
    ]

    with_tag-ok :
        (u : Bytes) (p : Ptr)
        → s.next_tag < 2 ^ 31
        → ht_get_entry (with_tag s v d).tags u ≡ some p
        → (t : Tag) × ((with_tag s v d).tag_at p ≡ some t)
          × (t.value ≡ u)
          × (t.id < (with_tag s v d).next_tag)
    with_tag-ok u p room e = elim (Bool-cases (str_eq v u)) [
      | inl same ↦
          let here : p ≡ s.next = ground (arith, with_tag-get u) in
          (
            new_tag_of s v,
            rw here (write_at s.tag_at s.next (some (new_tag_of s v))),
            (str_eq_iff v u).0 same,
            omega arith,
          )
      | inr apart ↦
          let old : ht_get_entry s.tags u ≡ some p = ground (arith, with_tag-get u) in
          let (t, et, named, below) = k.tag_ok u p old in
          (t, old_tag_at u p old ∙ et, named, omega arith)
    ]

    with_tag-Names : s.next_tag < 2 ^ 31 → s.next < invalid_tag → Names (with_tag s v d)
    unfolding file_id
    with_tag-Names room space = record {
      tags_unique = IsUnique-add s.tags v s.next k.tags_unique new;
      files_unique = k.files_unique;
      tag_ok = λ u p e. with_tag-ok u p room e;
      file_ok = k.file_ok;
      tags_apart = λ a b i ea eb. ground (
        arith,
        with_tag-id a,
        with_tag-id b,
        str_eq_iff v a,
        str_eq_iff v b,
        tag_id-bound s a i k,
        tag_id-bound s b i k,
        k.tags_apart a b i,
      );
      files_apart = k.files_apart;
      tags_bound = omega arith;
      files_bound = k.files_bound;
      no_invalid =
          write_elsewhere s.tag_at s.next invalid_tag (some (new_tag_of s v)) (ground arith)
          ∙ k.no_invalid;
      no_null =
          write_elsewhere s.tag_at s.next 0 (some (new_tag_of s v)) (ground (arith, k.started))
          ∙ k.no_null;
      started = omega arith;
      tags_fresh = λ p h.
          write_elsewhere s.tag_at s.next p (some (new_tag_of s v)) (ground arith)
          ∙ k.tags_fresh p (omega arith);
      files_fresh = λ q h. k.files_fresh q (omega arith);
    }

    unlinked_new : ⦃T : TagFile⦄ (f : ℕ) → IsValid s → T.linked s.db s.next_tag f ≡ false
    unlinked_new ⦃T⦄ f valid = elim (Bool-cases (T.linked s.db s.next_tag f)) [
      | inl linked ↦ absurd (omega (arith, (valid.links s.next_tag f linked).0))
      | inr free ↦ free
    ]

    with_tag-view :
        ⦃T : TagFile⦄ (m u : Bytes)
        → IsValid s
        → ((t f : ℕ) → T.linked d t f ≡ T.linked s.db t f)
        → has_tag (with_tag s v d) m u ≡ has_tag s m u
    unfolding file_id
    with_tag-view ⦃T⦄ m u valid same = elim (Bool-cases (str_eq v u)) [
      | inl here ↦
          let unknown : tag_id s u ≡ none = ground (arith, str_eq_iff v u, tag_id-none s v new) in
          let known : tag_id (with_tag s v d) u ≡ some s.next_tag = ground (arith, with_tag-id u) in
          elim (Option-cases (file_id s m)) [
            | inl e ↦ has_tag-unknown (with_tag s v d) m u e ∙ sym (has_tag-no_tag s m u unknown)
            | inr (f, e) ↦
                has_tag-ids (with_tag s v d) m u f s.next_tag e known
                ∙ same s.next_tag f
                ∙ unlinked_new f valid
                ∙ sym (has_tag-no_tag s m u unknown)
          ]
      | inr apart ↦ has_tag-same s (with_tag s v d) m u refl (with_tag-id u ∙ rw apart refl) same
    ]

  -- the tag is known in the valid store `s'`, and everything else is as in `s`
  pub record Adds ⦃T : TagFile⦄ (s : Fs) (v : Bytes) (s' : Fs) : Type 0 where
    pub valid : IsValid s'
    pub known : (p : Ptr) × (ht_get_entry s'.tags v ≡ some p)
    pub others : (u : Bytes) → str_eq v u ≡ false → ht_get_entry s'.tags u ≡ ht_get_entry s.tags u
    pub files : s'.files ≡ s.files
    pub world : s'.world ≡ s.world
    pub few : Few 1 s s'
    pub view : (m u : Bytes) → has_tag s' m u ≡ has_tag s m u

  module _ ⦃T : TagFile⦄ (s : Fs) (v : Bytes) (valid : IsValid s) where
    pub Adds-known : (p : Ptr) → ht_get_entry s.tags v ≡ some p → Adds s v s
    Adds-known p e = record {
      valid = valid;
      known = (p, e);
      others = λ u h. refl;
      files = refl;
      world = refl;
      few = (omega arith, omega arith, omega arith);
      view = λ m u. refl;
    }

    pub with_tag-Adds :
        (d : Q.Db)
        → ht_get_entry s.tags v ≡ none
        → s.next_tag < 2 ^ 31
        → s.next < invalid_tag
        → ((t f : ℕ) → T.linked d t f ≡ T.linked s.db t f)
        → Adds s v (with_tag s v d)
    with_tag-Adds d new room space same = record {
      valid = record {
        names = with_tag-Names s v d valid.names new room space;
        links = λ t f linked.
            let (below, below') = valid.links t f (sym (same t f) ∙ linked) in
            (omega arith, below');
      };
      known = (s.next, ground (arith, with_tag-get s v d valid.names new v, str_eq_iff v v));
      others = λ u h. ground (arith, with_tag-get s v d valid.names new u);
      files = refl;
      world = refl;
      few = (omega arith, omega arith, omega arith);
      view = λ m u. with_tag-view s v d valid.names new m u valid same;
    }

    -- `tag_get_or_create` of a name that is no tag
    pub tag_get_or_create_new :
        ht_get_entry s.tags v ≡ none
        → s.next_tag < 2 ^ 31
        → s.next < invalid_tag
        → Returns (tag_get_or_create v s) (λ p s'. Adds s v s')
    unfolding tag_get_or_create tag_new next_tag_id new_tag db_add_tag db_add_in run_write
        db_bind_text db_bind_int
    tag_get_or_create_new new room space =
        let (named, stmt, bind, bind', same) = T.insert_tag s.db v s.next_tag in
        (
          s.next,
          with_tag s v (Q.step s.db stmt).1.1,
          rw (new, ◌>>=◌, bind, bind') refl,
          with_tag-Adds _ new room space same,
        )
