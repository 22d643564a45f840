-- ===== src/Sqlite/Serving/Steps.antt =====
-- The commands that the operations of fuse_sqlite3/ are made of, on any valid store and any path.
use tag_filesystem.Base.Store.{◌>>=◌, for_each, Run, Returns, Returns-mono}
use tag_filesystem.Base.{
  ℕ, ◌+◌, ◌≤◌, ◌≡◌, ◌∙◌, refl, ap, ◌⊎◌, Bool, true, false, not, ◌||◌, Option, none, some, List, [],
  ◌∷◌, Bytes, arith, str_eq, if◌then◌else◌, Option-cases, Bool-cases, inl, inr,
}
use tag_filesystem.Cutil.HashTable.{
  Ptr, Entries, Uthash, HashTable, ht_get_entry, ht_entries, entries-create,
}
use tag_filesystem.Cutil.Libc.{slash}
use tag_filesystem.Cutil.String2.Split.{words}
use tag_filesystem.Fuse.Os.{Os}
use tag_filesystem.Fuse.Util.{dirnamedup}
use tag_filesystem.Sqlite.Database.{Sqlite, is_row, is_failure}
use tag_filesystem.Sqlite.Links.{TagFile}
use tag_filesystem.Sqlite.State.{invalid_tag, Fs, Cmd, load_tag}
use tag_filesystem.Sqlite.Statements.{
  match_query, append_ids, tag_id_list_string, db_file_match_tags,
}
use tag_filesystem.Sqlite.Tag.{compute_selected_tags}
use tag_filesystem.Sqlite.UserPath.{path_create}
use tag_filesystem.Sqlite.Valid.Creation.{Registers}
use tag_filesystem.Sqlite.Valid.Handling.{chosen-same}
use tag_filesystem.Sqlite.Valid.Linking.{with_db, Relinked}
use tag_filesystem.Sqlite.Valid.Matching.{asked}
use tag_filesystem.Sqlite.Valid.Selection.{tag_of, chosen, path_of, path_create-run}
use tag_filesystem.Sqlite.Valid.{Few, IsValid}

-- the run faults, or it ends with the postcondition
abbrev pub Safe : {S A : Type 0} → Option (A × S) → (A → S → Type 0) → Type 0
Safe run P = (run ≡ none) ⊎ Returns run P

module _ {S A B : Type 0} {P : A → S → Type 0} {P' : B → S → Type 0} where
  pub Safe-bind :
      (m : Run S A) (k : A → Run S B) (s : S)
      → Safe (m s) P
      → ((a : A) (s' : S) → P a s' → Safe (k a s') P')
      → Safe ((m >>= k) s) P'
  Safe-bind m k s (inl e) next = inl (rw (e, ◌>>=◌) refl)
  Safe-bind m k s (inr (a, s', e, p)) next = rw (e, ◌>>=◌) (next a s' p)

pub Safe-mono :
    {S A : Type 0} {P P' : A → S → Type 0} {run : Option (A × S)}
    → Safe run P
    → ((a : A) (s : S) → P a s → P' a s)
    → Safe run P'
Safe-mono (inl e) weaken = inl e
Safe-mono (inr r) weaken = inr (Returns-mono r weaken)

pub Safe-if :
    {S A : Type 0} {P : A → S → Type 0} (t : Bool) (a b : Run S A) (s : S)
    → Safe (a s) P
    → Safe (b s) P
    → Safe ((if t then a else b) s) P
Safe-if true a b s p q = p
Safe-if false a b s p q = q

module _ ⦃U : Uthash⦄ ⦃O : Os⦄ ⦃Q : Sqlite⦄ ⦃T : TagFile⦄ where
  -- `s'` is valid, has the tags and the files of `s`, and at most so many new numbers
  pub record Goes (k : ℕ) (s : Fs) (s' : Fs) : Type 0 where
    pub valid : IsValid s'
    pub tags : s'.tags ≡ s.tags
    pub files :
        (m : Bytes) (r : Ptr) → ht_get_entry s.files m ≡ some r → ht_get_entry s'.files m ≡ some r
    pub few : Few k s s'

  pub Goes-refl : (s : Fs) → IsValid s → Goes 0 s s
  Goes-refl s valid = record {
    valid = valid;
    tags = refl;
    files = λ m r e. e;
    few = (omega arith, omega arith, omega arith);
  }

  pub Goes-db : {s s' : Fs} {d : Q.Db} → s' ≡ with_db s d → IsValid s' → Goes 0 s s'
  Goes-db {s} same valid = record {
    valid = valid;
    tags = ap (λ (x : Fs). x.tags) same;
    files = λ m r e. rw same e;
    few = rw same (omega arith, omega arith, omega arith);
  }

  pub Goes-Registers : {s s' : Fs} {n : Bytes} {q : Ptr} → Registers s n q s' → Goes 1 s s'
  Goes-Registers k = record { valid = k.valid; tags = k.tags; files = k.kept; few = k.few }

  pub Goes-trans : {s s' s'' : Fs} (j k : ℕ) → Goes j s s' → Goes k s' s'' → Goes (j + k) s s''
  Goes-trans j k a b =
      let (t, f, n) = a.few in
      let (t', f', n') = b.few in
      record {
        valid = b.valid;
        tags = b.tags ∙ a.tags;
        files = λ m r e. b.files m r (a.files m r e);
        few = (omega arith, omega arith, omega arith);
      }

  pub Goes-le : {s s' : Fs} (j k : ℕ) → j ≤ k → Goes j s s' → Goes k s s'
  Goes-le j k le a =
      let (t, f, n) = a.few in
      record {
        valid = a.valid;
        tags = a.tags;
        files = a.files;
        few = (omega arith, omega arith, omega arith);
      }

  -- `path_create` of any path: it selects what the names of a list stand for
  pub path_create-any :
      (s : Fs) (user_path : Bytes)
      → (h : HashTable) × (path_create user_path false s ≡ some (path_of user_path h, s))
        × ((ws : List Bytes) × (ht_entries h ≡ chosen s ws))
  unfolding path_create compute_selected_tags
  path_create-any s user_path = elim (Bool-cases (str_eq (dirnamedup user_path) (b'.' ∷ []))) [
    | inl dot ↦ (_, rw (dot, ◌>>=◌) refl, ([], entries-create))
    | inr dir ↦
        let (h, run, e) = path_create-run s user_path dir in
        (h, run, (words slash (dirnamedup user_path), e))
  ]

  -- a loop over selected tags, for a function that changes only the database at a tag and faults at
  -- INVALID_TAG
  pub each_chosen :
      (n : Bytes) (q : Ptr) (b : Bool) (fun : Ptr → Cmd (Unit {0}))
      → ((s : Fs) (v : Bytes) (p : Ptr)
          → IsValid s
          → ht_get_entry s.tags v ≡ some p
          → ht_get_entry s.files n ≡ some q
          → Returns (fun p s) (λ _ s'. Relinked s n v b s'))
      → ((s : Fs) → IsValid s → fun invalid_tag s ≡ none)
      → (s : Fs) (ws : List Bytes) → IsValid s
      → ht_get_entry s.files n ≡ some q
      → Safe (for_each (chosen s ws) (λ _ p. fun p) s) (λ _ s'. Goes 0 s s')
  unfolding for_each
  each_chosen n q b fun one dead s [] valid en = inr (tt, s, refl, Goes-refl s valid)
  each_chosen n q b fun one dead s (v ∷ ws) valid en = elim (Option-cases (ht_get_entry s.tags v)) [
    | inl e ↦ inl (rw (e, tag_of, ◌>>=◌, dead s valid) refl)
    | inr (p, e) ↦
        rw (e, tag_of)
          (Safe-bind (fun p) _ s (inr (one s v p valid e en)) λ _ s' k.
            let g : Goes 0 s s' = Goes-db k.same k.valid in
            rw (chosen-same s s' ws g.tags) (
              Safe-mono (each_chosen n q b fun one dead s' ws k.valid (g.files n q en))
                λ _ s'' h. Goes-trans 0 0 g h))
  ]

  append_ids-any :
      (s : Fs) (es : Entries) (string : Bytes) (first : Bool)
      → Safe (append_ids es string first s) (λ _ s'. s' ≡ s)
  unfolding append_ids load_tag
  append_ids-any s [] string first = inr (string, s, refl, refl)
  append_ids-any s ((_, p) ∷ es) string first = elim (Option-cases (s.tag_at p)) [
    | inl e ↦ inl (rw (e, ◌>>=◌) refl)
    | inr (t, e) ↦ rw (e, ◌>>=◌) (append_ids-any s es _ false)
  ]

  -- `db_file_match_tags` for any number and any table
  pub db_file_match_tags-any :
      (s : Fs) (f : ℕ) (selected : HashTable)
      → IsValid s
      → Safe (db_file_match_tags f selected s) (λ _ s'. Goes 0 s s')
  unfolding db_file_match_tags tag_id_list_string match_query
  db_file_match_tags-any s f selected valid =
      Safe-bind (tag_id_list_string selected) _ s (append_ids-any s (ht_entries selected) [] true)
        λ tlist s' same. rw same (
          let ret = Q.step s.db (Q.prepare s.db (match_query f tlist)) in
          let g : Goes 0 s (with_db s ret.1.1) =
            Goes-db refl
              (asked s ret.1.1 valid
                (T.step_readonly s.db (Q.prepare s.db (match_query f tlist))
                  (T.select_readonly s.db _)).1).valid in
          elim (Bool-cases (is_failure ret.0 || not (is_row ret.0))) [
            | inl bad ↦ rw (bad, ◌>>=◌) (inr (false, _, refl, g))
            | inr good ↦ elim (Option-cases (Q.column_text ret.1.0 0)) [
              | inl null ↦ inl (rw (good, ◌>>=◌, null) refl)
              | inr (count, e) ↦ rw (good, ◌>>=◌, e) (inr (_, _, refl, g))
            ]
          ])
