-- ===== src/Sqlite/Valid/Creation.antt =====
-- `file_get_or_create` of fuse_sqlite3/ on a valid store.
use tag_filesystem.Base.Store.{write, ◌>>=◌, Returns, write_at, write_elsewhere}
use tag_filesystem.Base.{
  ℕ, ◌+◌, ◌%◌, ◌^◌, ◌<◌, ◌≡◌, ◌∙◌, refl, sym, false, none, some, Bytes, arith, str_eq, str_eq_iff,
  if◌then◌else◌, Option-cases, Bool-cases, inl, inr,
}
use tag_filesystem.Cutil.HashTable.{Ptr, Uthash, ht_get_entry, ht_add_entry, IsUnique-add, get-add}
use tag_filesystem.Fuse.Os.{Os}
use tag_filesystem.Fuse.Util.{path_realpath}
use tag_filesystem.Sqlite.Database.{Sqlite}
use tag_filesystem.Sqlite.File.{next_file_id, file_new, file_get_or_create}
use tag_filesystem.Sqlite.Links.{TagFile}
use tag_filesystem.Sqlite.State.{File, Fs, new_file, db_bind_text, db_bind_int}
use tag_filesystem.Sqlite.Statements.{run_write, db_add_in, db_add_file}
use tag_filesystem.Sqlite.Valid.Linking.{
  file_id-known, has_tag-ids, has_tag-unknown, has_tag-no_tag, has_tag-same,
}
use tag_filesystem.Sqlite.Valid.{tag_id, file_id, has_tag, Names, Few, IsValid}

module _ ⦃U : Uthash⦄ ⦃O : Os⦄ ⦃Q : Sqlite⦄ where
  pub file_id-none : (s : Fs) (n : Bytes) → ht_get_entry s.files n ≡ none → file_id s n ≡ none
  unfolding file_id
  file_id-none s n e = rw (e, file_id) refl

  pub file_id-bound :
      (s : Fs) (n : Bytes) (i : ℕ) → Names s → file_id s n ≡ some i → i < s.next_file
  file_id-bound s n i k e = elim (Option-cases (ht_get_entry s.files n)) [
    | inl missing ↦ absurd (ground (arith, file_id-none s n missing))
    | inr (q, known) ↦
        let (f, ef, _, below) = k.file_ok n q known in
        ground (arith, file_id-known s n q f known ef)
  ]

  -- the store with a new file
  abbrev new_file_of : Fs → Bytes → File
  new_file_of s n = record { id = s.next_file; name = n; realpath = path_realpath n }

  abbrev pub with_file : Fs → Bytes → Q.Db → Fs
  with_file s n d = record s {
    files = (ht_add_entry s.files n s.next).1;
    file_at = write s.file_at s.next (some (new_file_of s n));
    next = s.next + 1;
    next_file = (s.next_file + 1) % 2 ^ 32;
    db = d;
  }

  module _ (s : Fs) (n : Bytes) (d : Q.Db) (k : Names s) (new : ht_get_entry s.files n ≡ none) where
    with_file-get :
        (m : Bytes)
        → ht_get_entry (with_file s n d).files m
          ≡ (if str_eq n m then some s.next else ht_get_entry s.files m)
    with_file-get m = get-add s.files n m s.next k.files_unique new

    old_file_at :
        (m : Bytes) (q : Ptr)
        → ht_get_entry s.files m ≡ some q
        → (with_file s n d).file_at q ≡ s.file_at q
    old_file_at m q e =
        let (f, ef, _, _) = k.file_ok m q e in
        write_elsewhere s.file_at s.next q (some (new_file_of s n))
          (ground (arith, k.files_fresh q))

    with_file-id :
        (m : Bytes)
        → file_id (with_file s n d) m ≡ (if str_eq n m then some s.next_file else file_id s m)
    unfolding file_id
    with_file-id m = elim (Bool-cases (str_eq n m)) [
      | inl same ↦
          rw (with_file-get m, same, file_id, write_at s.file_at s.next (some (new_file_of s n)))
            refl
      | inr apart ↦ elim (Option-cases (ht_get_entry s.files m)) [
        | inl e ↦ rw (with_file-get m, apart, e, file_id) refl
        | inr (q, e) ↦ rw (with_file-get m, apart, e, file_id, old_file_at m q e) refl
      ]
    ]

    with_file-ok :
        (m : Bytes) (q : Ptr)
        → s.next_file < 2 ^ 31
        → ht_get_entry (with_file s n d).files m ≡ some q
        → (f : File) × ((with_file s n d).file_at q ≡ some f)
          × (f.name ≡ m)
          × (f.id < (with_file s n d).next_file)
    with_file-ok m q room e = elim (Bool-cases (str_eq n m)) [
      | inl same ↦
          let here : q ≡ s.next = ground (arith, with_file-get m) in
          (
            new_file_of s n,
            rw here (write_at s.file_at s.next (some (new_file_of s n))),
            (str_eq_iff n m).0 same,
            omega arith,
          )
      | inr apart ↦
          let old : ht_get_entry s.files m ≡ some q = ground (arith, with_file-get m) in
          let (f, ef, named, below) = k.file_ok m q old in
          (f, old_file_at m q old ∙ ef, named, omega arith)
    ]

    with_file-Names : s.next_file < 2 ^ 31 → Names (with_file s n d)
    unfolding tag_id
    with_file-Names room = record {
      tags_unique = k.tags_unique;
      files_unique = IsUnique-add s.files n s.next k.files_unique new;
      tag_ok = k.tag_ok;
      file_ok = λ m q e. with_file-ok m q room e;
      tags_apart = k.tags_apart;
      files_apart = λ a b i ea eb. ground (
        arith,
        with_file-id a,
        with_file-id b,
        str_eq_iff n a,
        str_eq_iff n b,
        file_id-bound s a i k,
        file_id-bound s b i k,
        k.files_apart a b i,
      );
      tags_bound = k.tags_bound;
      files_bound = omega arith;
      no_invalid = k.no_invalid;
      no_null = k.no_null;
      started = omega arith;
      tags_fresh = λ p h. k.tags_fresh p (omega arith);
      files_fresh = λ q h.
          write_elsewhere s.file_at s.next q (some (new_file_of s n)) (ground arith)
          ∙ k.files_fresh q (omega arith);
    }

    -- the new number stands in no link
    unlinked_new : ⦃T : TagFile⦄ (t : ℕ) → IsValid s → T.linked s.db t s.next_file ≡ false
    unlinked_new ⦃T⦄ t valid = elim (Bool-cases (T.linked s.db t s.next_file)) [
      | inl linked ↦ absurd (omega (arith, (valid.links t s.next_file linked).1))
      | inr free ↦ free
    ]

    with_file-view :
        ⦃T : TagFile⦄ (m u : Bytes)
        → IsValid s
        → ((t f : ℕ) → T.linked d t f ≡ T.linked s.db t f)
        → has_tag (with_file s n d) m u ≡ has_tag s m u
    unfolding tag_id
    with_file-view ⦃T⦄ m u valid same = elim (Bool-cases (str_eq n m)) [
      | inl here ↦
          let unknown : file_id s m ≡ none = ground (arith, str_eq_iff n m, file_id-none s n new) in
          let known : file_id (with_file s n d) m ≡ some s.next_file =
            ground (arith, with_file-id m) in
          elim (Option-cases (tag_id s u)) [
            | inl e ↦ has_tag-no_tag (with_file s n d) m u e ∙ sym (has_tag-unknown s m u unknown)
            | inr (t, e) ↦
                has_tag-ids (with_file s n d) m u s.next_file t known e
                ∙ same t s.next_file
                ∙ unlinked_new t valid
                ∙ sym (has_tag-unknown s m u unknown)
          ]
      | inr apart ↦ has_tag-same s (with_file s n d) m u (with_file-id m ∙ rw apart refl) refl same
    ]

  module _ ⦃T : TagFile⦄ where
    -- the file has this address in the valid store `s'`; the tags, the relation and the world are as
    -- before, and so are the addresses of the other files
    pub record Registers (s : Fs) (n : Bytes) (q : Ptr) (s' : Fs) : Type 0 where
      pub valid : IsValid s'
      pub known : ht_get_entry s'.files n ≡ some q
      pub kept :
          (m : Bytes) (r : Ptr) → ht_get_entry s.files m ≡ some r → ht_get_entry s'.files m ≡ some r
      pub tags : s'.tags ≡ s.tags
      pub world : s'.world ≡ s.world
      pub few : Few 1 s s'
      pub view : (m u : Bytes) → has_tag s' m u ≡ has_tag s m u

    pub with_file-Registers :
        (s : Fs) (n : Bytes) (d : Q.Db)
        → IsValid s
        → ht_get_entry s.files n ≡ none
        → s.next_file < 2 ^ 31
        → ((t f : ℕ) → T.linked d t f ≡ T.linked s.db t f)
        → Registers s n s.next (with_file s n d)
    with_file-Registers s n d valid new room same = record {
      valid = record {
        names = with_file-Names s n d valid.names new room;
        links = λ t f linked.
            let (below, below') = valid.links t f (sym (same t f) ∙ linked) in (below, omega arith);
      };
      known = ground (arith, with_file-get s n d valid.names new n, str_eq_iff n n);
      kept = λ m r e. ground (arith, with_file-get s n d valid.names new m, str_eq_iff n m);
      tags = refl;
      world = refl;
      few = (omega arith, omega arith, omega arith);
      view = λ m u. with_file-view s n d valid.names new m u valid same;
    }

    -- `file_get_or_create`, on a valid store with a number left, does not fault and keeps the store
    -- valid; the file is known afterwards, the other files keep their addresses, and the tags, the
    -- relation and the world are as before.
    pub file_get_or_create_lem :
        (s : Fs) (n : Bytes)
        → IsValid s
        → s.next_file < 2 ^ 31
        → Returns (file_get_or_create n s) (λ q s'. Registers s n q s')
    unfolding file_get_or_create file_new next_file_id new_file db_add_file db_add_in run_write
        db_bind_text db_bind_int
    file_get_or_create_lem s n valid room = elim (Option-cases (ht_get_entry s.files n)) [
      | inr (q, e) ↦ (
        q,
        s,
        rw (e, ◌>>=◌) refl,
        record {
          valid = valid;
          known = e;
          kept = λ m r e'. e';
          tags = refl;
          world = refl;
          few = (omega arith, omega arith, omega arith);
          view = λ m u. refl;
        },
      )
      | inl new ↦
          let (named, stmt, bind, bind', same) = T.insert_file s.db n s.next_file in
          (
            s.next,
            with_file s n (Q.step s.db stmt).1.1,
            rw (new, ◌>>=◌, bind, bind') refl,
            with_file-Registers s n _ valid new room same,
          )
    ]
