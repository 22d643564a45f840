-- ===== src/Fuse/Valid/LinkAll.antt =====
-- `path_link` on a valid store.
use tag_filesystem.Base.{
  ◌≡◌, ◌∙◌, refl, Bool, false, ◌&&◌, ◌||◌, some, List, [], ◌∷◌, Bytes, arith, str_eq, pos, neg,
  Bool-cases, inl, inr, is_some, true,
}
use tag_filesystem.Cutil.HashTable.{Ptr, Entries, Uthash, ht_entries, ht_get_entry}
use tag_filesystem.Fuse.File.{file_get_or_create}
use tag_filesystem.Fuse.Os.{Os, Stat, done}
use tag_filesystem.Fuse.State.{UserPath, Fs, for_each, each_entry}
use tag_filesystem.Fuse.Tag.{tag_file}
use tag_filesystem.Fuse.TagFs.Attr.{getattr_intra}
use tag_filesystem.Fuse.TagFs.Tagging.{path_link}
use tag_filesystem.Fuse.Util.{enoent}
use tag_filesystem.Fuse.Valid.Linking.{tag_file_lem}
use tag_filesystem.Fuse.Valid.Matching.{has_all, match_result, getattr_intra_lem}
use tag_filesystem.Fuse.Valid.Names.{Keeps-trans, file_get_or_create-Keeps}
use tag_filesystem.Base.Store.{Returns, Returns-bind, Returns-mono}
use tag_filesystem.Fuse.Valid.Selection.{Selects, Selects-Keeps}
use tag_filesystem.Fuse.Valid.{IsValid, has_tag}

-- one of the names is `v`
abbrev pub is_one_of : Bytes → List Bytes → Bool
is_one_of v [] = false
is_one_of v (n ∷ ns) = str_eq n v || is_one_of v ns

module _ ⦃U : Uthash⦄ ⦃O : Os⦄ where
  -- The store `s'` is valid and has the tables of names of `s`; the file named `n` has the tags `vs` in
  -- addition, and every other pair of names is related as before.
  pub record Tags (s : Fs) (n : Bytes) (vs : List Bytes) (s' : Fs) : Type 0 where
    pub valid : IsValid s'
    pub same_tags : s'.tags ≡ s.tags
    pub same_files : s'.files ≡ s.files
    pub view :
        (n' v' : Bytes) → has_tag s' n' v' ≡ ((str_eq n n' && is_one_of v' vs) || has_tag s n' v')

  Selects-same :
      (s s' : Fs) (ns : List Bytes) (es : Entries)
      → s'.tags ≡ s.tags
      → Selects s ns es
      → Selects s' ns es
  Selects-same s s' [] [] e sel = sel
  Selects-same s s' (n ∷ ns) ((k, p) ∷ es) e (named, here, sel) =
      (named, rw e here, Selects-same s s' ns es e sel)
  Selects-same s s' [] (_ ∷ _) e sel = absurd sel
  Selects-same s s' (_ ∷ _) [] e sel = absurd sel

  pub tag_each_lem :
      (names : List Bytes) (es : Entries) (n : Bytes) (q : Ptr) (s : Fs)
      → IsValid s
      → Selects s names es
      → ht_get_entry s.files n ≡ some q
      → Returns (for_each es (λ _ p. tag_file p q) s) (λ _ s'. Tags s n names s')
  unfolding for_each
  tag_each_lem [] [] n q s valid sel en = (
    tt,
    s,
    refl,
    record { valid = valid; same_tags = refl; same_files = refl; view = λ n' v'. ground arith },
  )
  tag_each_lem (v ∷ names) ((k, p) ∷ es) n q s valid (named, here, sel) en =
      Returns-bind (tag_file p q) _ s (tag_file_lem valid here en) λ _ s₁ c.
        Returns-mono
          (tag_each_lem names es n q s₁ c.valid (Selects-same s s₁ names es c.same_tags sel)
            (rw c.same_files en))
          λ _ s₂ d. record {
            valid = d.valid;
            same_tags = d.same_tags ∙ c.same_tags;
            same_files = d.same_files ∙ c.same_files;
            view = λ n' v'. ground (arith, d.view n' v', c.view n' v');
          }
  tag_each_lem [] (_ ∷ _) n q s valid sel en = absurd sel
  tag_each_lem (_ ∷ _) [] n q s valid sel en = absurd sel

  -- The store `s'` is valid, has every tag of `s` at the same place, and has the file `n`. If this file has
  -- the tags `froms` in `s`, it has the tags `tos` in addition; the relation is otherwise that of `s`.
  pub record Links (s : Fs) (n : Bytes) (froms tos : List Bytes) (s' : Fs) : Type 0 where
    pub valid : IsValid s'
    pub tags :
        (v : Bytes) (p : Ptr) → ht_get_entry s.tags v ≡ some p → ht_get_entry s'.tags v ≡ some p
    pub registered : is_some (ht_get_entry s'.files n) ≡ true
    pub view :
        (n' v : Bytes)
        → has_tag s' n' v
          ≡ ((has_all s n froms && (str_eq n n' && is_one_of v tos)) || has_tag s n' v)

  -- `path_link`, on a valid store, paths whose selected tags have the names `froms` and `tos`, and a
  -- real file at the first path that is no directory, does not fault, keeps the store valid with all its
  -- tags, and registers the file. If the file has all the tags `froms` it returns 0 and the file has the
  -- tags `tos` in addition, with every other pair of names as before; if not, it returns -ENOENT and no
  -- pair of names changes.
  pub path_link_lem :
      {s : Fs} (valid : IsValid s) (ffrom fto : UserPath) (st : Stat) (froms tos : List Bytes)
      → Selects s froms (ht_entries ffrom.selected_tags)
      → Selects s tos (ht_entries fto.selected_tags)
      → O.stat s.world ffrom.realpath ≡ done st
      → st.is_dir ≡ false
      → Returns (path_link ffrom fto s) (λ res s'.
        Links s ffrom.filename froms tos s' × (res ≡ match_result (has_all s ffrom.filename froms)))
  unfolding path_link each_entry
  path_link_lem {s} valid ffrom fto st froms tos from_tags to_tags here file =
      Returns-bind (getattr_intra ffrom) _ s
        (getattr_intra_lem valid ffrom st froms from_tags here file)
        λ (res, attrs) s₁ (k, known, e, _). elim (Bool-cases (has_all s ffrom.filename froms)) [
          | inr missing ↦
              let err : res ≡ neg enoent = e ∙ rw missing refl in
              rw err (
                neg enoent,
                s₁,
                refl,
                (
                  record {
                    valid = k.valid;
                    tags = k.tags;
                    registered = known;
                    view = λ n v. rw missing (k.view n v);
                  },
                  rw missing refl,
                ),
              )
          | inl all ↦
              let ok : res ≡ pos 0 = e ∙ rw all refl in
              rw ok (
                Returns-bind (file_get_or_create ffrom.filename) _ s₁
                  (file_get_or_create-Keeps k.valid ffrom.filename)
                  λ q s₂ (k', en).
                    let both = Keeps-trans k k' in
                    Returns-bind (for_each (ht_entries fto.selected_tags) (λ _ p. tag_file p q)) _
                      s₂
                      (tag_each_lem tos (ht_entries fto.selected_tags) ffrom.filename q s₂ k'.valid
                        (Selects-Keeps tos (ht_entries fto.selected_tags) both to_tags) en)
                      λ _ s₃ d. (
                        pos 0,
                        s₃,
                        refl,
                        (
                          record {
                            valid = d.valid;
                            tags = λ v p ev. rw d.same_tags (both.tags v p ev);
                            registered = rw (d.same_files, en) refl;
                            view = λ n v. ground (arith, d.view n v, both.view n v);
                          },
                          rw all refl,
                        ),
                      ))
        ]
