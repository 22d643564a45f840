-- ===== src/Fuse/Valid/Unlinking.antt =====
-- `path_unlink` on a valid store.
use tag_filesystem.Base.{
  ◌≡◌, ◌∙◌, refl, true, false, not, ◌&&◌, Option, none, some, List, [], ◌∷◌, Bytes, ℤ, pos, neg,
  arith, is_some, length, if◌then◌else◌, str_eq, str_eq_iff, ◌==◌, ==_iff, Bool-cases, Option-cases,
  inl, inr,
}
use tag_filesystem.Cutil.HashTable.{
  Ptr, Entries, Uthash, ht_entries, ht_entry_count, ht_get_entry, has-get, count-entries,
  get-lookup, lookup,
}
use tag_filesystem.Fuse.File.{file_get}
use tag_filesystem.Fuse.Os.{Os}
use tag_filesystem.Fuse.State.Writes.{load_tag-run}
use tag_filesystem.Fuse.State.{Tag, UserPath, Cmd, Fs, ◌>>=◌, ◌>>◌, pure, for_each, each_entry}
use tag_filesystem.Fuse.Tag.{untag_file}
use tag_filesystem.Fuse.TagFs.Tagging.{unlink_tag, path_unlink}
use tag_filesystem.Fuse.Util.{enoent}
use tag_filesystem.Fuse.Valid.LinkAll.{is_one_of}
use tag_filesystem.Fuse.Valid.Linking.{untag_file_lem}
use tag_filesystem.Fuse.Valid.Removing.{tag_remove_lem}
use tag_filesystem.Base.Store.{Returns, Returns-bind, Returns-mono}
use tag_filesystem.Fuse.Valid.Selection.{Selects}
use tag_filesystem.Fuse.Valid.{IsValid, has_tag}

-- no name stands twice
abbrev pub Distinct : List Bytes → Type 0
Distinct [] = Unit
Distinct (n ∷ ns) = (is_one_of n ns ≡ false) × Distinct ns

lookup-empty : (es : Entries) (k : Bytes) → (length es == 0) ≡ true → lookup k es ≡ none
lookup-empty [] k e = refl
lookup-empty (x ∷ es) k e = absurd (ground (arith, ==_iff (length (x ∷ es)) 0))

module _ ⦃U : Uthash⦄ ⦃O : Os⦄ where
  -- The store `s'` is valid; the tag `v` was taken from the file `n`, and every other pair of names, every
  -- other tag and the table of the files are as in `s`.
  pub record Unlinks (s : Fs) (n v : Bytes) (s' : Fs) : Type 0 where
    pub valid : IsValid s'
    pub view :
        (n' w : Bytes) → has_tag s' n' w ≡ (not (str_eq n n' && str_eq v w) && has_tag s n' w)
    pub other_tags :
        (w : Bytes) → str_eq v w ≡ false → ht_get_entry s'.tags w ≡ ht_get_entry s.tags w
    pub same_files : s'.files ≡ s.files

  -- a tag whose table of files is empty is the tag of no file
  has_tag-empty :
      {s : Fs} (valid : IsValid s) (n v : Bytes) {p : Ptr} {t : Tag}
      → ht_get_entry s.tags v ≡ some p
      → s.tag_at p ≡ some t
      → (ht_entry_count t.files == 0) ≡ true
      → has_tag s n v ≡ false
  unfolding has_tag
  has_tag-empty {s} valid n v {p} {t} ev et e = elim (Option-cases (ht_get_entry s.files n)) [
    | inl e' ↦ ground arith
    | inr (q, e') ↦
        let (f, ef, named) = valid.file_named n q e' in
        let nothing : ht_get_entry t.files f.name ≡ none =
          get-lookup t.files f.name (valid.tag_ok p t et).unique
          ∙ lookup-empty (ht_entries t.files) f.name (rw count-entries at e) in
        ground (arith, has-get f.tags v, valid.mutual' v p t q f ev et ef)
  ]

  -- One round of `path_unlink`, on a tag and a file of a valid store, does not fault, and takes the tag
  -- from the file; a tag that no file has any more is removed.
  pub unlink_tag_lem :
      {s : Fs} {n v : Bytes} {p q : Ptr}
      → IsValid s
      → ht_get_entry s.tags v ≡ some p
      → ht_get_entry s.files n ≡ some q
      → Returns (unlink_tag q p s) (λ _ s'. Unlinks s n v s')
  unfolding unlink_tag
  unlink_tag_lem {s} {n} {v} {p} {q} valid ev en =
      Returns-bind (untag_file p q) _ s (untag_file_lem valid ev en) λ _ s₁ c.
        let ev₁ : ht_get_entry s₁.tags v ≡ some p = rw c.same_tags ev in
        let (t, et, named) = c.valid.tag_named v p ev₁ in
        elim (Bool-cases (ht_entry_count t.files == 0)) [
          | inl last ↦
              rw (load_tag-run s₁ p et, ◌>>=◌, last)
                (Returns-mono (tag_remove_lem c.valid ev₁) λ _ s₂ k. record {
                  valid = k.valid;
                  view = λ n' w. ground (
                    arith,
                    k.view n' w,
                    c.view n' w,
                    str_eq_iff v w,
                    has_tag-empty c.valid n' v ev₁ et last,
                  );
                  other_tags = λ w e. ground (arith, k.tags_get w, c.same_tags);
                  same_files = k.same_files ∙ c.same_files;
                })
          | inr more ↦
              rw (load_tag-run s₁ p et, ◌>>=◌, more)
                (
                  tt,
                  s₁,
                  refl,
                  record {
                    valid = c.valid;
                    view = λ n' w. ground (arith, c.view n' w);
                    other_tags = λ w e. rw c.same_tags refl;
                    same_files = c.same_files;
                  },
                )
        ]

  Selects-Unlinks :
      {s s' : Fs} {n v : Bytes} (ns : List Bytes) (es : Entries)
      → Unlinks s n v s'
      → is_one_of v ns ≡ false
      → Selects s ns es
      → Selects s' ns es
  Selects-Unlinks [] [] k e sel = sel
  Selects-Unlinks {v = v} (m ∷ ns) ((j, p) ∷ es) k e (named, here, sel) = (
    named,
    k.other_tags m (ground (arith, str_eq_iff v m, str_eq_iff m v)) ∙ here,
    Selects-Unlinks ns es k (ground arith) sel,
  )
  Selects-Unlinks [] (_ ∷ _) k e sel = absurd sel
  Selects-Unlinks (_ ∷ _) [] k e sel = absurd sel

  -- The store `s'` is valid, and the tags `vs` were taken from the file `n`; every other pair of names is
  -- related as before.
  pub record Untags (s : Fs) (n : Bytes) (vs : List Bytes) (s' : Fs) : Type 0 where
    pub valid : IsValid s'
    pub view :
        (n' w : Bytes) → has_tag s' n' w ≡ (not (str_eq n n' && is_one_of w vs) && has_tag s n' w)

  unlink_each-Untags :
      (names : List Bytes) (es : Entries) (n : Bytes) (q : Ptr) (s : Fs)
      → IsValid s
      → Distinct names
      → Selects s names es
      → ht_get_entry s.files n ≡ some q
      → Returns (for_each es (λ _ p. unlink_tag q p) s) (λ _ s'. Untags s n names s')
  unfolding for_each
  unlink_each-Untags [] [] n q s valid d sel en =
      (tt, s, refl, record { valid = valid; view = λ n' w. ground arith })
  unlink_each-Untags (v ∷ names) ((k, p) ∷ es) n q s valid (new, d) (named, here, sel) en =
      Returns-bind (unlink_tag q p) _ s (unlink_tag_lem valid here en) λ _ s₁ u.
        Returns-mono
          (unlink_each-Untags names es n q s₁ u.valid d (Selects-Unlinks names es u new sel)
            (rw u.same_files en))
          λ _ s₂ l. record {
            valid = l.valid;
            view = λ n' w. ground (arith, l.view n' w, u.view n' w);
          }
  unlink_each-Untags [] (_ ∷ _) n q s valid d sel en = absurd sel
  unlink_each-Untags (_ ∷ _) [] n q s valid d sel en = absurd sel

  -- the rest of `path_unlink`, for the result of `file_get`
  abbrev unlink_found : UserPath → Option Ptr → Cmd ℤ
  unlink_found path none = pure (neg enoent)
  unlink_found path (some q) = do
    each_entry path.selected_tags (λ _ p. unlink_tag q p)
    pure (pos 0)

  has_tag-no_file : (s : Fs) (n v : Bytes) → ht_get_entry s.files n ≡ none → has_tag s n v ≡ false
  unfolding has_tag
  has_tag-no_file s n v e = ground arith

  unlink_found-Untags :
      {s : Fs} (valid : IsValid s) (path : UserPath) (names : List Bytes) (found : Option Ptr)
      → Distinct names
      → Selects s names (ht_entries path.selected_tags)
      → ht_get_entry s.files path.filename ≡ found
      → Returns (unlink_found path found s) (λ res s'.
        Untags s path.filename names s' × (res ≡ (if is_some found then pos 0 else neg enoent)))
  unfolding each_entry
  unlink_found-Untags {s} valid path names none d sel e = (
    neg enoent,
    s,
    refl,
    (
      record {
        valid = valid;
        view =
            λ n w. ground (arith, has_tag-no_file s path.filename w e, str_eq_iff path.filename n);
      },
      refl,
    ),
  )
  unlink_found-Untags {s} valid path names (some q) d sel e =
      Returns-bind (for_each (ht_entries path.selected_tags) (λ _ p. unlink_tag q p)) _ s
        (unlink_each-Untags names (ht_entries path.selected_tags) path.filename q s valid d sel e)
        λ _ s' k. (pos 0, s', refl, (k, refl))

  -- `path_unlink`, on a valid store and a path that selects tags with different names, does not fault and
  -- keeps the store valid. It returns 0 if the table has the file and -ENOENT if not; the file loses the
  -- selected tags, and every other pair of names is related as before.
  pub path_unlink_lem :
      {s : Fs} (valid : IsValid s) (path : UserPath) (names : List Bytes)
      → Distinct names
      → Selects s names (ht_entries path.selected_tags)
      → Returns (path_unlink path s) (λ res s'.
        Untags s path.filename names s'
        × (res ≡ (if is_some (ht_get_entry s.files path.filename) then pos 0 else neg enoent)))
  unfolding path_unlink file_get
  path_unlink_lem {s} valid path names d sel =
      unlink_found-Untags valid path names (ht_get_entry s.files path.filename) d sel refl
