-- ===== src/Sqlite/Valid/Linking.antt =====
-- `tag_file` and `untag_file` of fuse_sqlite3/ on a valid store.
use tag_filesystem.Base.Store.{pure, ◌>>=◌, Returns}
use tag_filesystem.Base.{
  ℕ, ◌<◌, ◌≡◌, refl, Bool, true, false, ◌&&◌, none, some, Bytes, arith, ◌==◌, str_eq, str_eq_iff,
  if◌then◌else◌, Option-cases, inl, inr,
}
use tag_filesystem.Cutil.HashTable.{Ptr, Uthash, ht_get_entry}
use tag_filesystem.Fuse.Os.{Os}
use tag_filesystem.Sqlite.Database.{result_code, Sqlite}
use tag_filesystem.Sqlite.Links.{TagFile, Bound}
use tag_filesystem.Sqlite.State.{Tag, File, Fs, load_tag, load_file, db_bind_int}
use tag_filesystem.Sqlite.Statements.{
  run_write, write_link, db_tag_file, db_untag_file, insert_link_query, delete_link_query,
}
use tag_filesystem.Sqlite.Tag.{tag_file, untag_file}
use tag_filesystem.Sqlite.Valid.{tag_id, file_id, has_tag, Names, IsValid}

module _ ⦃U : Uthash⦄ ⦃O : Os⦄ ⦃Q : Sqlite⦄ where
  pub load_tag-run : (s : Fs) (p : Ptr) (t : Tag) → s.tag_at p ≡ some t → load_tag p s ≡ some (t, s)
  unfolding load_tag
  load_tag-run s p t e = rw (e, load_tag) refl

  pub load_file-run :
      (s : Fs) (q : Ptr) (f : File) → s.file_at q ≡ some f → load_file q s ≡ some (f, s)
  unfolding load_file
  load_file-run s q f e = rw (e, load_file) refl

  -- the store with another database
  abbrev pub with_db : Fs → Q.Db → Fs
  with_db s d = record s { db = d }

  pub with_db-Names : {s : Fs} (d : Q.Db) → Names s → Names (with_db s d)
  unfolding tag_id file_id
  with_db-Names d k = record {
    tags_unique = k.tags_unique;
    files_unique = k.files_unique;
    tag_ok = k.tag_ok;
    file_ok = k.file_ok;
    tags_apart = k.tags_apart;
    files_apart = k.files_apart;
    tags_bound = k.tags_bound;
    files_bound = k.files_bound;
    no_invalid = k.no_invalid;
    no_null = k.no_null;
    started = k.started;
    tags_fresh = k.tags_fresh;
    files_fresh = k.files_fresh;
  }

  pub write_link-run :
      (s : Fs) (query : Bytes) (t f : ℕ) (stmt : Q.Stmt)
      → Bound s.db query t f stmt
      → Returns (write_link query t f s) (λ _ s'. s' ≡ with_db s (Q.step s.db stmt).1.1)
  unfolding write_link run_write db_bind_int
  write_link-run s query t f stmt (with_tag, e, e') = (
    result_code (Q.step s.db stmt).0,
    with_db s (Q.step s.db stmt).1.1,
    rw (e, ◌>>=◌, e') refl,
    refl,
  )

  pub tag_id-known :
      (s : Fs) (v : Bytes) (p : Ptr) (t : Tag)
      → ht_get_entry s.tags v ≡ some p
      → s.tag_at p ≡ some t
      → tag_id s v ≡ some t.id
  unfolding tag_id
  tag_id-known s v p t e e' = rw (e, tag_id, e') refl

  pub file_id-known :
      (s : Fs) (n : Bytes) (q : Ptr) (f : File)
      → ht_get_entry s.files n ≡ some q
      → s.file_at q ≡ some f
      → file_id s n ≡ some f.id
  unfolding file_id
  file_id-known s n q f e e' = rw (e, file_id, e') refl

  module _ ⦃T : TagFile⦄ where
    pub has_tag-ids :
        (s : Fs) (n v : Bytes) (f t : ℕ)
        → file_id s n ≡ some f
        → tag_id s v ≡ some t
        → has_tag s n v ≡ T.linked s.db t f
    unfolding has_tag
    has_tag-ids s n v f t e e' = rw (e, has_tag, e') refl

    pub has_tag-unknown : (s : Fs) (n v : Bytes) → file_id s n ≡ none → has_tag s n v ≡ false
    unfolding has_tag
    has_tag-unknown s n v e = rw (e, has_tag) refl

    pub has_tag-no_tag : (s : Fs) (n v : Bytes) → tag_id s v ≡ none → has_tag s n v ≡ false
    unfolding has_tag
    has_tag-no_tag s n v e' = elim (Option-cases (file_id s n)) [
      | inl e ↦ rw (e, has_tag) refl
      | inr (f, e) ↦ rw (e, has_tag, e') refl
    ]

    -- two stores with the same numbers of these names and the same link have the same relation there
    pub has_tag-same :
        (s s' : Fs) (n v : Bytes)
        → file_id s' n ≡ file_id s n
        → tag_id s' v ≡ tag_id s v
        → ((t f : ℕ) → T.linked s'.db t f ≡ T.linked s.db t f)
        → has_tag s' n v ≡ has_tag s n v
    unfolding has_tag
    has_tag-same s s' n v same_file same_tag same = elim (Option-cases (file_id s n)) [
      | inl e ↦ rw (same_file, has_tag, e) refl
      | inr (f, e) ↦ elim (Option-cases (tag_id s v)) [
        | inl e' ↦ rw (same_file, has_tag, e, same_tag, e') refl
        | inr (t, e') ↦ rw (same_file, has_tag, e, same_tag, e') (same t f)
      ]
    ]

    -- only the database has changed, and of the relation only the pair of these names
    pub record Relinked (s : Fs) (n v : Bytes) (b : Bool) (s' : Fs) : Type 0 where
      pub db' : Q.Db
      pub same : s' ≡ with_db s db'
      pub valid : IsValid s'
      pub view :
          (m u : Bytes) → has_tag s' m u ≡ (if str_eq n m && str_eq v u then b else has_tag s m u)

    -- the relation after a change of one link
    relinked-view :
        (s : Fs) (d : Q.Db) (n v : Bytes) (f t : ℕ) (b : Bool)
        → IsValid s
        → file_id s n ≡ some f
        → tag_id s v ≡ some t
        → ((u g : ℕ) → T.linked d u g ≡ (if (t == u) && (f == g) then b else T.linked s.db u g))
        → (m u : Bytes)
        → has_tag (with_db s d) m u ≡ (if str_eq n m && str_eq v u then b else has_tag s m u)
    unfolding has_tag tag_id file_id
    relinked-view s d n v f t b valid en ev change m u = elim (Option-cases (file_id s m)) [
      | inl e ↦ rw (e, has_tag) (ground (arith, str_eq_iff n m))
      | inr (g, e) ↦ elim (Option-cases (tag_id s u)) [
        | inl e' ↦ rw (e, has_tag, e') (ground (arith, str_eq_iff v u))
        | inr (i, e') ↦
            rw (e, has_tag, e')
              (ground (
                arith,
                change i g,
                str_eq_iff n m,
                str_eq_iff v u,
                valid.names.files_apart n m f en,
                valid.names.tags_apart v u t ev,
              ))
      ]
    ]

    relink :
        (s : Fs) (d : Q.Db) (n v : Bytes) (f : File) (t : Tag) (b : Bool)
        → IsValid s
        → file_id s n ≡ some f.id
        → tag_id s v ≡ some t.id
        → (t.id < s.next_tag) × (f.id < s.next_file)
        → ((u g : ℕ)
            → T.linked d u g ≡ (if (t.id == u) && (f.id == g) then b else T.linked s.db u g))
        → Relinked s n v b (with_db s d)
    relink s d n v f t b valid en ev below change = record {
      db' = d;
      same = refl;
      valid = record {
        names = with_db-Names d valid.names;
        links = λ u g linked. ground (arith, change u g, valid.links u g);
      };
      view = relinked-view s d n v f.id t.id b valid en ev change;
    }

    -- `write_link` for the tag and the file of these names
    write_link-Relinked :
        (s : Fs) (query : Bytes) (n v : Bytes) (p q : Ptr) (b : Bool)
        → IsValid s
        → ht_get_entry s.tags v ≡ some p
        → ht_get_entry s.files n ≡ some q
        → ((t f : ℕ)
            → (stmt : Q.Stmt) × Bound s.db query t f stmt
              × ((u g : ℕ)
                  → T.linked (Q.step s.db stmt).1.1 u g
                    ≡ (if (t == u) && (f == g) then b else T.linked s.db u g)))
        → Returns
            ((load_tag p >>= λ t. load_file q >>= λ f. write_link query t.id f.id >>= λ _. pure tt)
              s)
            (λ _ s'. Relinked s n v b s')
    write_link-Relinked s query n v p q b valid ev en law =
        let (t, et, _, below) = valid.names.tag_ok v p ev in
        let (f, ef, _, below') = valid.names.file_ok n q en in
        let (stmt, bound, change) = law t.id f.id in
        let (ret, s', run, same) = write_link-run s query t.id f.id stmt bound in
        (
          tt,
          s',
          rw (load_tag-run s p t et, ◌>>=◌, load_file-run s q f ef, run) refl,
          rw same (
              relink s (Q.step s.db stmt).1.1 n v f t b valid (file_id-known s n q f en ef)
                (tag_id-known s v p t ev et) (below, below') change),
        )

    -- On a registered tag and file of a valid store, `tag_file` does not fault and keeps the store
    -- valid; nothing but the database changes, and of the relation only this pair, to true.
    pub tag_file_lem :
        (s : Fs) (n v : Bytes) (p q : Ptr)
        → IsValid s
        → ht_get_entry s.tags v ≡ some p
        → ht_get_entry s.files n ≡ some q
        → Returns (tag_file p q s) (λ _ s'. Relinked s n v true s')
    unfolding tag_file db_tag_file
    tag_file_lem s n v p q valid ev en =
        write_link-Relinked s insert_link_query n v p q true valid ev en (T.insert_link s.db)

    -- The same for `untag_file`, to false.
    pub untag_file_lem :
        (s : Fs) (n v : Bytes) (p q : Ptr)
        → IsValid s
        → ht_get_entry s.tags v ≡ some p
        → ht_get_entry s.files n ≡ some q
        → Returns (untag_file p q s) (λ _ s'. Relinked s n v false s')
    unfolding untag_file db_untag_file
    untag_file_lem s n v p q valid ev en =
        write_link-Relinked s delete_link_query n v p q false valid ev en (T.delete_link s.db)
