-- ===== src/Fuse/TagFs/Making.antt =====
-- What `path_create` and `tag_mkdir` do to a valid store.
use tag_filesystem.Base.{
  ℕ, ◌≡◌, ◌∙◌, refl, Bool, true, false, Option, none, some, [], ◌∷◌, Bytes, ℤ, pos, neg, arith, ltb,
  if◌then◌else◌, str_eq, str_eq_iff, ==_iff, Bool-cases, Option-cases, inl, inr,
}
use tag_filesystem.Cutil.HashTable.{Ptr, Uthash, ht_create, ht_entries, ht_get_entry, get-add}
use tag_filesystem.Cutil.Libc.{slash}
use tag_filesystem.Cutil.String2.Split.{words}
use tag_filesystem.Fuse.Os.{Os}
use tag_filesystem.Fuse.State.Writes.{load_tag-run, store_tag-run, write_at}
use tag_filesystem.Fuse.State.{
  Tag, Fs, Cmd, ◌>>=◌, ◌>>◌, pure, write, load_tag, store_tag, put_tag, new_tag,
}
use tag_filesystem.Fuse.Tag.{
  tag_new, tag_get, tag_get_or_create, tag_get_or_create_in, tag_inc_ref, compute_selected_tags,
}
use tag_filesystem.Fuse.TagFs.Tagging.{tag_mkdir}
use tag_filesystem.Fuse.UserPath.{path_create}
use tag_filesystem.Fuse.Util.{get_character_count, basenamedup, dirnamedup, path_realpath, eexist}
use tag_filesystem.Fuse.Valid.Creation.{recount-IsValid, with_tag, with_tag-IsValid}
use tag_filesystem.Fuse.Valid.Names.{Keeps}
use tag_filesystem.Base.Store.{Returns, Returns-bind}
use tag_filesystem.Fuse.Valid.Selection.{Selects, compute_selected_tags_lem}
use tag_filesystem.Fuse.Valid.{IsValid, has_tag}

module _ ⦃U : Uthash⦄ ⦃O : Os⦄ where
  -- `path_create`, on a valid store and a path whose directory part is not ".", does not fault and
  -- keeps the store valid and the relation between names; the path has the last part of the user's
  -- path as its file name, the file of that name in the root directory as its real path, and selects
  -- the tags that the directory part names between its slashes, in that order.
  pub path_create_lem :
      {s : Fs} (valid : IsValid s) (user_path : Bytes) (is_tag : Bool)
      → str_eq (if is_tag then user_path else dirnamedup user_path) (b'.' ∷ []) ≡ false
      → Returns (path_create user_path is_tag s) (λ path s'.
        Keeps s s'
        × (path.filename ≡ basenamedup user_path)
        × (path.realpath ≡ path_realpath user_path)
        × Selects s'
            (words slash (if is_tag then user_path else dirnamedup user_path))
            (ht_entries path.selected_tags))
  unfolding path_create
  path_create_lem {s} valid user_path is_tag proper =
      let dirpath = if is_tag then user_path else dirnamedup user_path in
      Returns-bind (compute_selected_tags dirpath) _ s
        (compute_selected_tags_lem valid dirpath proper)
        λ h s' (k, sel). (_, s', refl, (k, refl, refl, sel))

  -- the tag named `v` is in the table and is in use
  unfoldable pub used : Fs → Bytes → Bool
  used s v = elim (ht_get_entry s.tags v) [
    | none ↦ false
    | some p ↦ elim (s.tag_at p) [ none ↦ false | some t ↦ t.in_use ]
  ]

  -- the names that are used are those of `s` and `v`
  abbrev pub Marks : Fs → Bytes → Fs → Type 0
  Marks s v s' = (v' : Bytes) → used s' v' ≡ (if str_eq v v' then true else used s v')

  mark-Marks :
      {s : Fs} {p : Ptr} {t : Tag} (v : Bytes) (count : ℕ)
      → IsValid s
      → ht_get_entry s.tags v ≡ some p
      → s.tag_at p ≡ some t
      → Marks s v (put_tag p (some (record t { in_use = true; ref_count = count })) s)
  unfolding used write
  mark-Marks {s} {p} {t} v count valid ev et v' = elim (Option-cases (ht_get_entry s.tags v')) [
    | inl e ↦ ground (arith, str_eq_iff v v')
    | inr (p', e) ↦
        let (t', et', named') = valid.tag_named v' p' e in
        let (t'', et'', named) = valid.tag_named v p ev in
        ground (arith, ==_iff p' p, str_eq_iff v v')
  ]

  used_here :
      (s : Fs) {p : Ptr} {t : Tag} (v : Bytes)
      → ht_get_entry s.tags v ≡ some p
      → s.tag_at p ≡ some t
      → used s v ≡ t.in_use
  unfolding used
  used_here s v ev et = ground arith

  Marks-used : (s : Fs) (v : Bytes) → used s v ≡ true → Marks s v s
  Marks-used s v e v' = ground (arith, str_eq_iff v v')

  -- the part of `tag_mkdir` behind the test of the path, for the result of `tag_get`
  abbrev make_found : Bytes → Option Ptr → Cmd ℤ
  make_found v (some p) = do
    t ← load_tag p
    if t.in_use
        then pure (neg eexist)
        else (do store_tag p (record t { in_use = true }); pure (pos 0))
  make_found v none = do _ ← tag_get_or_create v; pure (pos 0)

  make_marked :
      (s : Fs) (v : Bytes) (p : Ptr) {t : Tag}
      → s.tag_at p ≡ some t
      → t.in_use ≡ false
      → make_found v (some p) s ≡ some (pos 0, put_tag p (some (record t { in_use = true })) s)
  make_marked s v p {t} et free =
      ground (arith, load_tag-run s p et, store_tag-run s p (record t { in_use = true }) et)

  abbrev new_of : Bytes → Tag
  new_of v = record { value = v; files = ht_create; in_use = true; ref_count = 0 }

  get_or_create-new :
      (s : Fs) (v : Bytes)
      → ht_get_entry s.tags v ≡ none
      → tag_get_or_create v s
        ≡ some (
          s.next,
          put_tag s.next (some (record (new_of v) { ref_count = 1 })) (with_tag s v true),
        )
  unfolding tag_get_or_create tag_get_or_create_in tag_new new_tag tag_inc_ref
  get_or_create-new s v e =
      let et = write_at s.tag_at s.next (some (new_of v)) in
      ground (
        arith,
        load_tag-run (with_tag s v true) s.next et,
        store_tag-run (with_tag s v true) s.next (record (new_of v) { ref_count = 1 }) et,
      )

  used_absent : (s : Fs) (v : Bytes) → ht_get_entry s.tags v ≡ none → used s v ≡ false
  unfolding used
  used_absent s v e = ground arith

  used-with_tag :
      {s : Fs} (valid : IsValid s) (v : Bytes)
      → ht_get_entry s.tags v ≡ none
      → Marks s v (with_tag s v true)
  unfolding used write
  used-with_tag {s} valid v e v' = elim (Option-cases (ht_get_entry s.tags v')) [
    | inl e' ↦ ground (
      arith,
      get-add s.tags v v' s.next valid.tags_unique e,
      str_eq_iff v v',
      ==_iff s.next s.next,
    )
    | inr (p, e') ↦
        let (t, et, named) = valid.tag_named v' p e' in
        ground (
          arith,
          get-add s.tags v v' s.next valid.tags_unique e,
          str_eq_iff v v',
          ==_iff p s.next,
          ==_iff s.next s.next,
          (valid.tag_ok p t et).fresh,
        )
  ]

  abbrev pub Made : Fs → Bytes → ℤ → Fs → Type 0
  Made s v res s' =
      IsValid s'
      × ((n v' : Bytes) → has_tag s' n v' ≡ has_tag s n v')
      × (res ≡ (if used s v then neg eexist else pos 0))
      × Marks s v s'

  make_found-Made :
      {s : Fs} (valid : IsValid s) (v : Bytes) (found : Option Ptr)
      → ht_get_entry s.tags v ≡ found
      → Returns (make_found v found s) (λ res s'. Made s v res s')
  unfolding has_tag
  make_found-Made {s} valid v (some p) e =
      let (t, et, named) = valid.tag_named v p e in
      elim (Bool-cases t.in_use) [
        | inl in_use ↦
            let u : used s v ≡ true = used_here s v e et ∙ in_use in
            (
              neg eexist,
              s,
              rw (load_tag-run s p et, ◌>>=◌) (ground arith),
              (valid, λ n v'. refl, rw u refl, Marks-used s v u),
            )
        | inr free ↦
            let u : used s v ≡ false = used_here s v e et ∙ free in
            (
              pos 0,
              _,
              make_marked s v p et free,
              (
                recount-IsValid valid p et true t.ref_count,
                λ n v'. refl,
                rw u refl,
                mark-Marks v t.ref_count valid e et,
              ),
            )
      ]
  make_found-Made {s} valid v none e =
      let valid₀ = with_tag-IsValid valid v true e in
      let e₀ : ht_get_entry (with_tag s v true).tags v ≡ some s.next =
        ground (arith, get-add s.tags v v s.next valid.tags_unique e, str_eq_iff v v) in
      let et₀ : (with_tag s v true).tag_at s.next ≡ some (new_of v) = write_at s.tag_at s.next _ in
      (
        pos 0,
        _,
        rw (get_or_create-new s v e, ◌>>=◌) refl,
        (
          recount-IsValid valid₀ s.next et₀ true 1,
          λ n v'. refl,
          ground (arith, used_absent s v e),
          λ v'. ground (arith, mark-Marks v 1 valid₀ e₀ et₀ v', used-with_tag valid v e v'),
        ),
      )

  -- `tag_mkdir`, on a valid store and a path with at most one slash, does not fault, and keeps the
  -- store valid and the relation between files and tags. It returns -EEXIST if the last part of the
  -- path names a tag in use and 0 if not; afterwards this tag is in use, and every other name is in
  -- use if it was before.
  pub tag_mkdir_lem :
      {s : Fs} (valid : IsValid s) (user_path : Bytes)
      → ltb 1 (get_character_count user_path b'/') ≡ false
      → Returns (tag_mkdir user_path s) (λ res s'. Made s (basenamedup user_path) res s')
  unfolding tag_mkdir tag_get
  tag_mkdir_lem {s} valid user_path shallow = rw shallow (
      make_found-Made valid (basenamedup user_path) (ht_get_entry s.tags (basenamedup user_path))
        refl)
