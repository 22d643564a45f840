-- ===== src/LowLevel/Listing.antt =====
-- `readdir_get_selected_files` against the relation between names: which files it gathers, and when it
-- ends.
use tag_filesystem.Base.Store.{◌>>=◌}
use tag_filesystem.Base.{
  ◌≡◌, ◌∙◌, refl, sym, ap, Bool, true, false, ◌&&◌, ◌||◌, some, none, List, [], ◌∷◌, Bytes, arith,
  str_eq, str_eq_iff, if◌then◌else◌, is_some, Bool-cases, Option-cases, inl, inr,
}
use tag_filesystem.Cutil.HashTable.{
  Ptr, Entries, Uthash, HashTable, IsUnique, IsUnique-create, get-create, ht_create, ht_entries,
  ht_get_entry, ht_has_entry, ht_add_unique_entry, get-add_unique_agreed, add_distinct-IsUnique,
  Among, Among-get, has-get, has-lookup, lookup,
}
use tag_filesystem.Fuse.Os.{Os as FuseOs}
use tag_filesystem.Fuse.Valid.Matching.{has_all}
use tag_filesystem.Fuse.Valid.Selection.{Selects}
use tag_filesystem.Fuse.Valid.{IsValid, has_tag}
use tag_filesystem.LowLevel.Callback.Dir.{
  add_selected, collect_files, check_file, check_files, readdir_get_selected_files,
}
use tag_filesystem.LowLevel.Os.{Os}
use tag_filesystem.LowLevel.State.Runs.{load_tag-run, load_file-run}
use tag_filesystem.LowLevel.State.{Tag, Session}
use tag_filesystem.LowLevel.View.{as_fs, tag_named, file_named, map_heap_at, as_tag, as_file}

module _ ⦃U : Uthash⦄ ⦃O : Os⦄ ⦃F : FuseOs⦄ (w : F.World) where
  -- the file named `n` has one of the tags with these names
  abbrev pub has_any : Session → List Bytes → Bytes → Bool
  has_any s [] n = false
  has_any s (v ∷ vs) n = has_tag (as_fs w s) n v || has_any s vs n

  -- the table has exactly the registered files whose names are chosen
  pub record Gathers (s : Session) (chosen : Bytes → Bool) (h : HashTable) : Type 0 where
    pub unique : IsUnique h
    pub get : (n : Bytes) → ht_get_entry h n ≡ (if chosen n then ht_get_entry s.files n else none)

  -- whether all the files of a table have all the tags
  abbrev pub all_have : Session → List Bytes → Entries → Bool
  all_have s vs [] = true
  all_have s vs ((n, q) ∷ es) = has_all (as_fs w s) n vs && all_have s vs es

  -- the keys of entries
  abbrev is_key : Entries → Bytes → Bool
  is_key es n = is_some (lookup n es)

  -- entries that the table of files has as well
  abbrev Registered : Session → Entries → Type 0
  Registered s [] = Unit
  Registered s ((n, q) ∷ es) = (ht_get_entry s.files n ≡ some q) × Registered s es

  module _ (s : Session) (valid : IsValid (as_fs w s)) where
    gather_one :
        {chosen : Bytes → Bool} {h : HashTable} (n : Bytes) (q : Ptr)
        → ht_get_entry s.files n ≡ some q
        → Gathers s chosen h
        → Gathers s (λ m. str_eq n m || chosen m) (ht_add_unique_entry h n q).1
    gather_one {chosen} {h} n q e g = record {
      unique = add_distinct-IsUnique h n q g.unique;
      get = λ m.
          get-add_unique_agreed h n m q g.unique (λ v e'. ground (arith, g.get n))
          ∙ ground (arith, g.get m, str_eq_iff n m);
    }

    Gathers-same :
        {chosen chosen' : Bytes → Bool} {h : HashTable}
        → ((m : Bytes) → is_some (ht_get_entry s.files m) ≡ true → chosen m ≡ chosen' m)
        → Gathers s chosen h
        → Gathers s chosen' h
    Gathers-same {chosen} {chosen'} {h} same g = record {
      unique = g.unique;
      get = λ m. ground (arith, g.get m, same m);
    }

    add_selected-Gathers :
        (es : Entries) {chosen : Bytes → Bool} {h : HashTable}
        → Registered s es
        → Gathers s chosen h
        → (h' : HashTable) × (add_selected es h s ≡ some (h', s))
          × Gathers s (λ m. is_key es m || chosen m) h'
    unfolding add_selected
    add_selected-Gathers [] {h = h} r g = (h, refl, g)
    add_selected-Gathers ((n, q) ∷ es) {h = h} (e, r) g =
        let (f, ef, named) = file_named s valid e in
        let (h', run, g') = add_selected-Gathers es r (gather_one n q e g) in
        (h', rw (load_file-run s q ef, ◌>>=◌, named) run, Gathers-same (λ m _. ground arith) g')

    Registered-Among :
        (es : Entries)
        → ((n : Bytes) (q : Ptr) → Among n q es → ht_get_entry s.files n ≡ some q)
        → Registered s es
    Registered-Among [] all = tt
    Registered-Among ((n, q) ∷ es) all =
        (all n q (inl (refl, refl)), Registered-Among es (λ m p a. all m p (inr a)))

    -- the files of a tag
    is_key-has_tag :
        (v : Bytes) (p : Ptr) (t : Tag)
        → ht_get_entry s.tags v ≡ some p
        → s.tag_at p ≡ some t
        → (m : Bytes) → is_some (ht_get_entry s.files m) ≡ true
        → is_key (ht_entries t.files) m ≡ has_tag (as_fs w s) m v
    unfolding has_tag
    is_key-has_tag v p t ev et m known = elim (Option-cases (ht_get_entry s.files m)) [
      | inl e ↦ absurd (ground arith)
      | inr (q, e) ↦
          let (f, ef, named) = file_named s valid e in
          let ef' = map_heap_at as_file s.file_at q ef in
          rw (e, has_tag, ef')
            (sym (has-lookup t.files m)
              ∙ has-get t.files m
              ∙ ap (λ x. is_some (ht_get_entry t.files x)) (sym named)
              ∙ valid.mutual' v p (as_tag t) q (as_file f) ev (map_heap_at as_tag s.tag_at p et) ef'
              ∙ sym (has-get f.tags v))
    ]

    collect_files-Gathers :
        (vs : List Bytes) (es : Entries) {chosen : Bytes → Bool} {h : HashTable}
        → Selects (as_fs w s) vs es
        → Gathers s chosen h
        → (h' : HashTable) × (collect_files es h s ≡ some (h', s))
          × Gathers s (λ m. has_any s vs m || chosen m) h'
    unfolding collect_files
    collect_files-Gathers [] [] {h = h} sel g = (h, refl, g)
    collect_files-Gathers (v ∷ vs) ((k, p) ∷ es) (same, ev, sel) g =
        let (t, et, named) = tag_named s valid ev in
        let ok = valid.tag_ok p (as_tag t) (map_heap_at as_tag s.tag_at p et) in
        let (h1, run1, g1) =
          add_selected-Gathers (ht_entries t.files)
            (Registered-Among (ht_entries t.files)
              (λ n q a. ok.listed n q ((Among-get t.files n q ok.unique).0 a)))
            g in
        let (h2, run2, g2) = collect_files-Gathers vs es sel g1 in
        (
          h2,
          rw (load_tag-run s p et, ◌>>=◌, run1) run2,
          Gathers-same (λ m known. ground (arith, is_key-has_tag v p t ev et m known)) g2,
        )
    collect_files-Gathers [] (_ ∷ _) sel g = absurd sel
    collect_files-Gathers (_ ∷ _) [] sel g = absurd sel

    check_file-has_all :
        (n : Bytes) (q : Ptr) (vs : List Bytes) (es : Entries)
        → ht_get_entry s.files n ≡ some q
        → Selects (as_fs w s) vs es
        → check_file q es s ≡ (if has_all (as_fs w s) n vs then some (tt, s) else none)
    unfolding check_file has_tag
    check_file-has_all n q [] [] en sel = refl
    check_file-has_all n q (v ∷ vs) ((k, p) ∷ es) en (same, ev, sel) =
        let (t, et, named) = tag_named s valid ev in
        let (f, ef, named') = file_named s valid en in
        let has : has_tag (as_fs w s) n v ≡ ht_has_entry f.tags v =
          rw (en, has_tag, map_heap_at as_file s.file_at q ef) refl in
        rw (load_file-run s q ef, ◌>>=◌, load_tag-run s p et, named, has)
          (elim (Bool-cases (ht_has_entry f.tags v)) [
            | inl tagged ↦ rw tagged (check_file-has_all n q vs es en sel)
            | inr untagged ↦ rw untagged refl
          ])
    check_file-has_all n q [] (_ ∷ _) en sel = absurd sel
    check_file-has_all n q (_ ∷ _) [] en sel = absurd sel

    check_files-all_have :
        (vs : List Bytes) (tags es : Entries)
        → Registered s es
        → Selects (as_fs w s) vs tags
        → check_files es tags s ≡ (if all_have s vs es then some (tt, s) else none)
    unfolding check_files
    check_files-all_have vs tags [] r sel = refl
    check_files-all_have vs tags ((n, q) ∷ es) (en, r) sel =
        elim (Bool-cases (has_all (as_fs w s) n vs)) [
          | inl all ↦
              rw (check_file-has_all n q vs tags en sel, all, ◌>>=◌)
                (check_files-all_have vs tags es r sel)
          | inr missing ↦ rw (check_file-has_all n q vs tags en sel, missing, ◌>>=◌) refl
        ]

    gathered :
        (vs : List Bytes) (es : Entries)
        → Selects (as_fs w s) vs es
        → (h : HashTable) × (collect_files es ht_create s ≡ some (h, s))
          × Gathers s (has_any s vs) h
    gathered vs es sel =
        let (h, run, g) =
          collect_files-Gathers vs es {chosen = λ _. false} sel
            (record { unique = IsUnique-create; get = get-create }) in
        (h, run, Gathers-same (λ m _. ground arith) g)

    -- `readdir_get_selected_files`, on a session with a valid view and a table that selects tags
    -- by their names, gathers exactly the registered files that have one of the tags; it returns
    -- their table if all of them have all the tags, and otherwise it never returns.
    pub readdir_get_selected_files_lem :
        (vs : List Bytes) (selected : HashTable)
        → Selects (as_fs w s) vs (ht_entries selected)
        → (h : HashTable) × Gathers s (has_any s vs) h
          × (readdir_get_selected_files selected s
              ≡ (if all_have s vs (ht_entries h) then some (h, s) else none))
    unfolding readdir_get_selected_files
    readdir_get_selected_files_lem vs selected sel =
        let (h, run, g) = gathered vs (ht_entries selected) sel in
        let registered =
          Registered-Among (ht_entries h)
            (λ n q a. ground (arith, g.get n, (Among-get h n q g.unique).0 a)) in
        (
          h,
          g,
          rw
              (
                run,
                ◌>>=◌,
                check_files-all_have vs (ht_entries selected) (ht_entries h) registered sel,
              )
              (elim (Bool-cases (all_have s vs (ht_entries h))) [
                | inl all ↦ rw all refl
                | inr missing ↦ rw missing refl
              ]),
        )

    all_have-Among :
        (vs : List Bytes) (n : Bytes) (q : Ptr) (es : Entries)
        → Among n q es
        → has_all (as_fs w s) n vs ≡ false
        → all_have s vs es ≡ false
    all_have-Among vs n q [] a lacks = absurd a
    all_have-Among vs n q ((m, p) ∷ es) (inl (same, _)) lacks =
        rw (ap (λ x. has_all (as_fs w s) x vs) same ∙ lacks) refl
    all_have-Among vs n q ((m, p) ∷ es) (inr a) lacks =
        ground (arith, all_have-Among vs n q es a lacks)

    -- Where a registered file has one of the selected tags and not all of them, on a session with
    -- a valid view, `readdir_get_selected_files` never returns.
    pub readdir_get_selected_files-none :
        (vs : List Bytes) (selected : HashTable) (n : Bytes)
        → Selects (as_fs w s) vs (ht_entries selected)
        → is_some (ht_get_entry s.files n) ≡ true
        → has_any s vs n ≡ true
        → has_all (as_fs w s) n vs ≡ false
        → readdir_get_selected_files selected s ≡ none
    readdir_get_selected_files-none vs selected n sel known some_tag lacks =
        let (h, g, run) = readdir_get_selected_files_lem vs selected sel in
        elim (Option-cases (ht_get_entry s.files n)) [
          | inl e ↦ absurd (ground arith)
          | inr (q, e) ↦
              let among = (Among-get h n q g.unique).1 (ground (arith, g.get n)) in
              rw (all_have-Among vs n q (ht_entries h) among lacks) at run
        ]
