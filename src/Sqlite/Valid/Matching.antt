-- ===== src/Sqlite/Valid/Matching.antt =====
-- `db_file_match_tags` of fuse_sqlite3/ against the relation between names: the text that is asked,
-- the count that the database answers, and the number that is read back.
use tag_filesystem.Base.Store.{◌>>=◌, Returns}
use tag_filesystem.Base.{
  ℕ, ◌^◌, ◌<◌, ◌≤◌, ◌≡◌, ◌∙◌, refl, sym, ap, Bool, true, false, ◌&&◌, some, List, [], ◌∷◌, ◌++◌,
  Bytes, codes, arith, ◌==◌, str_eq_iff, length, append_assoc, append-nil, Option-cases, inl, inr,
}
use tag_filesystem.Cutil.HashTable.{
  Entries, Uthash, HashTable, ht_get_entry, ht_entries, ht_entry_count, count-entries,
}
use tag_filesystem.Fuse.Os.{Os}
use tag_filesystem.Fuse.Valid.Unlinking.{Distinct}
use tag_filesystem.Fuse.Valid.LinkAll.{is_one_of}
use tag_filesystem.Sqlite.Database.{Sqlite}
use tag_filesystem.Sqlite.Links.{
  TagFile, more_numbers, number_list, count_of, IsOther, AreKeys, count_query,
}
use tag_filesystem.Sqlite.Number.Reading.{atoi-decimal}
use tag_filesystem.Sqlite.Number.{decimal, format_int}
use tag_filesystem.Sqlite.State.{Fs}
use tag_filesystem.Sqlite.Statements.{
  append_ids, tag_id_list_string, match_query, db_file_match_tags,
}
use tag_filesystem.Sqlite.Valid.Linking.{
  load_tag-run, tag_id-known, has_tag-ids, with_db, with_db-Names,
}
use tag_filesystem.Sqlite.Valid.{tag_id, file_id, has_tag, Names, IsValid}

format_int-decimal : (n : ℕ) → n < 2 ^ 31 → format_int n ≡ decimal n
unfolding format_int
format_int-decimal n h = ground arith

module _ ⦃U : Uthash⦄ ⦃O : Os⦄ ⦃Q : Sqlite⦄ where
  -- the entries are the tags with these names, in this order
  abbrev pub Selects : Fs → List Bytes → Entries → Type 0
  Selects s [] [] = Unit
  Selects s (v ∷ vs) ((k, p) ∷ es) = (k ≡ v) × (ht_get_entry s.tags v ≡ some p) × Selects s vs es
  Selects s _ _ = ⊥

  -- the numbers of the tags with these names
  abbrev NumbersOf : Fs → List Bytes → List ℕ → Type 0
  NumbersOf s [] [] = Unit
  NumbersOf s (v ∷ vs) (i ∷ is) = (tag_id s v ≡ some i) × (i < 2 ^ 31) × NumbersOf s vs is
  NumbersOf s _ _ = ⊥

  module _ (s : Fs) (k : Names s) where
    append_ids-more :
        (vs : List Bytes) (es : Entries) (string : Bytes)
        → Selects s vs es
        → (is : List ℕ) × NumbersOf s vs is
          × (append_ids es string false s ≡ some (string ++ more_numbers is, s))
    unfolding append_ids
    append_ids-more [] [] string sel = ([], tt, rw append-nil refl)
    append_ids-more (v ∷ vs) ((_, p) ∷ es) string (_, ev, sel) =
        let (t, et, _, below) = k.tag_ok v p ev in
        let small : t.id < 2 ^ 31 = omega (arith, k.tags_bound) in
        let (is, numbers, run) =
          append_ids-more vs es (string ++ (codes ", " ++ decimal t.id)) sel in
        (
          t.id ∷ is,
          (tag_id-known s v p t ev et, small, numbers),
          rw (load_tag-run s p t et, ◌>>=◌, format_int-decimal t.id small)
              (run
                ∙ ap (λ l. some (l, s))
                    (append_assoc string (codes ", " ++ decimal t.id) (more_numbers is))),
        )
    append_ids-more [] (_ ∷ _) string sel = absurd sel
    append_ids-more (_ ∷ _) [] string sel = absurd sel

    append_ids-first :
        (vs : List Bytes) (es : Entries)
        → Selects s vs es
        → (is : List ℕ) × NumbersOf s vs is × (append_ids es [] true s ≡ some (number_list is, s))
    unfolding append_ids
    append_ids-first [] [] sel = ([], tt, refl)
    append_ids-first (v ∷ vs) ((_, p) ∷ es) (_, ev, sel) =
        let (t, et, _, below) = k.tag_ok v p ev in
        let small : t.id < 2 ^ 31 = omega (arith, k.tags_bound) in
        let (is, numbers, run) = append_ids-more vs es (decimal t.id) sel in
        (
          t.id ∷ is,
          (tag_id-known s v p t ev et, small, numbers),
          rw (load_tag-run s p t et, ◌>>=◌, format_int-decimal t.id small) run,
        )
    append_ids-first [] (_ ∷ _) sel = absurd sel
    append_ids-first (_ ∷ _) [] sel = absurd sel

    NumbersOf-IsOther :
        (v : Bytes) (i : ℕ) (vs : List Bytes) (is : List ℕ)
        → tag_id s v ≡ some i
        → is_one_of v vs ≡ false
        → NumbersOf s vs is
        → IsOther i is
    NumbersOf-IsOther v i [] [] ev apart numbers = tt
    NumbersOf-IsOther v i (u ∷ us) (j ∷ js) ev apart (eu, _, numbers) = (
      ground (arith, k.tags_apart v u i ev, str_eq_iff v u, str_eq_iff u v),
      NumbersOf-IsOther v i us js ev (ground (arith, apart)) numbers,
    )
    NumbersOf-IsOther v i [] (_ ∷ _) ev apart numbers = absurd numbers
    NumbersOf-IsOther v i (_ ∷ _) [] ev apart numbers = absurd numbers

    NumbersOf-AreKeys :
        (vs : List Bytes) (is : List ℕ) → Distinct vs → NumbersOf s vs is → AreKeys is
    NumbersOf-AreKeys [] [] apart numbers = tt
    NumbersOf-AreKeys (v ∷ vs) (i ∷ is) (apart, rest) (ev, small, numbers) =
        (small, NumbersOf-IsOther v i vs is ev apart numbers, NumbersOf-AreKeys vs is rest numbers)
    NumbersOf-AreKeys [] (_ ∷ _) apart numbers = absurd numbers
    NumbersOf-AreKeys (_ ∷ _) [] apart numbers = absurd numbers

  module _ ⦃T : TagFile⦄ where
    -- the file with this name has all the tags with these names
    abbrev pub has_all : Fs → Bytes → List Bytes → Bool
    has_all s n [] = true
    has_all s n (v ∷ vs) = has_tag s n v && has_all s n vs

    count_of-le :
        (s : Fs) (f : ℕ) (vs : List Bytes) (is : List ℕ)
        → NumbersOf s vs is
        → count_of (λ t. T.linked s.db t f) is ≤ length vs
    count_of-le s f [] [] numbers = omega arith
    count_of-le s f (v ∷ vs) (i ∷ is) (_, _, numbers) =
        ground (arith, count_of-le s f vs is numbers)
    count_of-le s f [] (_ ∷ _) numbers = absurd numbers
    count_of-le s f (_ ∷ _) [] numbers = absurd numbers

    count_of-has_all :
        (s : Fs) (n : Bytes) (f : ℕ) (vs : List Bytes) (is : List ℕ)
        → file_id s n ≡ some f
        → NumbersOf s vs is
        → (count_of (λ t. T.linked s.db t f) is == length vs) ≡ has_all s n vs
    count_of-has_all s n f [] [] en numbers = refl
    count_of-has_all s n f (v ∷ vs) (i ∷ is) en (ev, _, numbers) = ground (
      arith,
      count_of-has_all s n f vs is en numbers,
      count_of-le s f vs is numbers,
      has_tag-ids s n v f i en ev,
    )
    count_of-has_all s n f [] (_ ∷ _) en numbers = absurd numbers
    count_of-has_all s n f (_ ∷ _) [] en numbers = absurd numbers

    -- only the database has changed, and nothing of the relation
    pub record Asked (s : Fs) (s' : Fs) : Type 0 where
      pub db' : Q.Db
      pub same : s' ≡ with_db s db'
      pub valid : IsValid s'
      pub view : (m u : Bytes) → has_tag s' m u ≡ has_tag s m u

    pub asked :
        (s : Fs) (d : Q.Db)
        → IsValid s
        → ((t f : ℕ) → T.linked d t f ≡ T.linked s.db t f)
        → Asked s (with_db s d)
    unfolding has_tag tag_id file_id
    asked s d valid same = record {
      db' = d;
      same = refl;
      valid = record {
        names = with_db-Names d valid.names;
        links = λ t f linked. valid.links t f (sym (same t f) ∙ linked);
      };
      view = λ m u. elim (Option-cases (file_id s m)) [
        | inl e ↦ rw (e, has_tag) refl
        | inr (f, e) ↦ elim (Option-cases (tag_id s u)) [
          | inl e' ↦ rw (e, has_tag, e') refl
          | inr (t, e') ↦ rw (e, has_tag, e') (same t f)
        ]
      ];
    }

    pub Selects-length :
        (s : Fs) (vs : List Bytes) (es : Entries) → Selects s vs es → length vs ≡ length es
    Selects-length s [] [] sel = refl
    Selects-length s (v ∷ vs) (_ ∷ es) (_, _, sel) = omega (arith, Selects-length s vs es sel)
    Selects-length s [] (_ ∷ _) sel = absurd sel
    Selects-length s (_ ∷ _) [] sel = absurd sel

    -- On a valid store, for the number of a registered file and a table that selects different tags,
    -- `db_file_match_tags` does not fault and returns whether the file has all these tags; nothing but
    -- the database has changed, no pair of the relation has, and the store is valid.
    pub db_file_match_tags_lem :
        (s : Fs) (n : Bytes) (f : ℕ) (vs : List Bytes) (selected : HashTable)
        → IsValid s
        → file_id s n ≡ some f
        → f < 2 ^ 31
        → Distinct vs
        → Selects s vs (ht_entries selected)
        → length vs < 2 ^ 32
        → Returns (db_file_match_tags f selected s) (λ b s'. (b ≡ has_all s n vs) × Asked s s')
    unfolding db_file_match_tags tag_id_list_string match_query
    db_file_match_tags_lem s n f vs selected valid en small apart sel few =
        let (is, numbers, run) = append_ids-first s valid.names vs (ht_entries selected) sel in
        let c = count_of (λ t. T.linked s.db t f) is in
        let (is_a_row, text, same) =
          T.count_links s.db f is small (NumbersOf-AreKeys s valid.names vs is apart numbers) in
        let le = count_of-le s f vs is numbers in
        (
          c == ht_entry_count selected,
          with_db s (Q.step s.db (Q.prepare s.db (count_query f is))).1.1,
          rw (run, ◌>>=◌, format_int-decimal f small, is_a_row, text, atoi-decimal c (omega arith))
              refl,
          (
            rw (count-entries selected) (
                ap (λ m. c == m) (sym (Selects-length s vs (ht_entries selected) sel))
                ∙ count_of-has_all s n f vs is en numbers),
            asked s _ valid same,
          ),
        )
