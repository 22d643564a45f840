-- ===== src/Fuse/Valid/Removing.antt =====
-- `tag_remove` on a valid store.
use tag_filesystem.Base.{
  ◌+◌, ◌-◌, ◌%◌, ◌^◌, ◌≡◌, ◌∙◌, refl, sym, ap, Bool, not, ◌&&◌, Option, none, some, [], ◌∷◌,
  fun_ext, Bytes, arith, if◌then◌else◌, str_eq, ◌==◌, Bool-cases, inl, inr,
}
use mathlib.Core.Option.{some-injective}
use tag_filesystem.Cutil.HashTable.{
  Ptr, Entries, Uthash, HashTable, IsUnique, Among, ht_entries, ht_get_entry, ht_remove_entry,
  Among-get, IsUnique-remove, get-remove,
}
use tag_filesystem.Fuse.Os.{Os}
use tag_filesystem.Fuse.State.Writes.{
  load_tag-run, store_tag-run, free_tag-run, write_at, write-write,
}
use tag_filesystem.Fuse.State.{Tag, Fs, write, ◌>>=◌, ◌>>◌, each_entry}
use tag_filesystem.Fuse.Tag.{remove_from_tags, tag_dec_ref, tag_remove}
use tag_filesystem.Base.Store.{Returns}
use tag_filesystem.Fuse.Valid.Removed.{removed, Removes, removed-IsValid, has_tag-removed}
use tag_filesystem.Fuse.Valid.Stripping.{
  retitle, visits-retitle, entries-tmp, strip_loop, Strips, CanStrip, AllFiles,
}
use tag_filesystem.Fuse.Valid.{IsValid, has_tag}

module _ ⦃U : Uthash⦄ ⦃O : Os⦄ where
  AllFiles-listed :
      {s : Fs} (valid : IsValid s) (es : Entries)
      → ((n : Bytes) (q : Ptr) → Among n q es → ht_get_entry s.files n ≡ some q)
      → AllFiles s es
  AllFiles-listed valid [] listed = tt
  AllFiles-listed valid ((n, q) ∷ es) listed =
      let (f, ef, _) = valid.file_named n q (listed n q (inl (refl, refl))) in
      (rw ef refl, AllFiles-listed valid es (λ m r a. listed m r (inr a)))

  AllFiles-retitle : (s : Fs) (v : Bytes) (es : Entries) → AllFiles s es → AllFiles s (retitle v es)
  AllFiles-retitle s v [] all = tt
  AllFiles-retitle s v ((n, q) ∷ es) (here, all) = (here, AllFiles-retitle s v es all)

  IsValid-CanStrip : {s : Fs} → IsValid s → CanStrip s
  IsValid-CanStrip valid = record {
    tags_unique = λ q f e. let ok = valid.file_ok q f e in ok.unique;
    open' = λ q f e. let ok = valid.file_ok q f e in ok.open';
  }

  Strips-visits :
      {s s' : Fs} {v : Bytes} {a b : Ptr → Bool}
      → ((q : Ptr) → a q ≡ b q)
      → Strips s s' v a
      → Strips s s' v b
  Strips-visits same k = rw (fun_ext same) at k

  -- a table without the key `v`
  abbrev pub Without : HashTable → Bytes → HashTable → Type 0
  Without h v table =
      IsUnique table
      × ((w : Bytes) → ht_get_entry table w ≡ (if str_eq v w then none else ht_get_entry h w))

  remove-Without : (h : HashTable) (v : Bytes) → IsUnique h → Without h v (ht_remove_entry h v).1
  remove-Without h v u = (IsUnique-remove h v u, λ w. get-remove h v w u)

  remove_twice-Without :
      (h : HashTable) (v : Bytes)
      → IsUnique h
      → Without h v (ht_remove_entry (ht_remove_entry h v).1 v).1
  remove_twice-Without h v u =
      let u' = IsUnique-remove h v u in
      (
        IsUnique-remove (ht_remove_entry h v).1 v u',
        λ w. ground (arith, get-remove (ht_remove_entry h v).1 v w u', get-remove h v w u),
      )

  -- the last two calls of `tag_remove`, whether the count falls to 0 or not
  dec_ref-run :
      (s : Fs) (p : Ptr) {t : Tag}
      → s.tag_at p ≡ some t
      → IsUnique s.tags
      → (table : HashTable) × (c : Option Tag) × ((remove_from_tags t.value >> tag_dec_ref p) s
          ≡ some (tt, record s { tags = table; tag_at = write s.tag_at p c }))
        × Without s.tags t.value table
        × ((t' : Tag) → c ≡ some t' → t'.files ≡ t.files)
  unfolding remove_from_tags tag_dec_ref
  dec_ref-run s p {t} e u =
      let count = (t.ref_count + (2 ^ 32 - 1)) % 2 ^ 32 in
      let once : HashTable = (ht_remove_entry s.tags t.value).1 in
      let twice : HashTable = (ht_remove_entry once t.value).1 in
      let s₁ : Fs = record s { tags = once } in
      let t₁ : Tag = record t { ref_count = count } in
      let s₂ : Fs = record s { tags = twice; tag_at = write s.tag_at p (some t₁) } in
      elim (Bool-cases (count == 0)) [
        | inl last ↦ (
          twice,
          none,
          rw (load_tag-run s₁ p e, ◌>>=◌, store_tag-run s₁ p t₁ e, last)
              (free_tag-run s₂ p (write_at s.tag_at p (some t₁))
                ∙ ap (λ h. some (tt, record s { tags = twice; tag_at = h }))
                    (write-write s.tag_at p (some t₁) none)),
          remove_twice-Without s.tags t.value u,
          λ t' e'. absurd (ground arith),
        )
        | inr more ↦ (
          once,
          some t₁,
          rw (load_tag-run s₁ p e, ◌>>=◌, store_tag-run s₁ p t₁ e, more) refl,
          remove-Without s.tags t.value u,
          λ t' e'. ap (λ x. x.files) (sym (some-injective t₁ t' e')),
        )
      ]

  -- the store after `tag_remove` of the tag named `v`
  pub record WithoutTag (s : Fs) (v : Bytes) (s' : Fs) : Type 0 where
    pub valid : IsValid s'
    pub view : (n w : Bytes) → has_tag s' n w ≡ (not (str_eq v w) && has_tag s n w)
    pub tags_get :
        (w : Bytes) → ht_get_entry s'.tags w ≡ (if str_eq v w then none else ht_get_entry s.tags w)
    pub same_files : s'.files ≡ s.files

  tag_remove_at :
      {s : Fs} {p : Ptr} {t : Tag}
      → IsValid s
      → s.tag_at p ≡ some t
      → ht_get_entry s.tags t.value ≡ some p
      → Returns (tag_remove p s) (λ _ s'. WithoutTag s t.value s')
  unfolding tag_remove each_entry
  tag_remove_at {s} {p} {t} valid et ev =
      let ok = valid.tag_ok p t et in
      let es : Entries = retitle t.value (ht_entries t.files) in
      let all : AllFiles s (ht_entries t.files) =
        AllFiles-listed valid (ht_entries t.files)
          (λ n q a. ok.listed n q ((Among-get t.files n q ok.unique).0 a)) in
      let (_, s₁, loop, k) =
        strip_loop es p t s (IsValid-CanStrip valid)
          (AllFiles-retitle s t.value (ht_entries t.files) all) et in
      let et₁ : s₁.tag_at p ≡ some t = rw k.same_tag_at et in
      let (table, c, run, (unique, get), files) =
        dec_ref-run s₁ p et₁ (rw k.same_tags valid.tags_unique) in
      let facts : Removes s s₁ table t.value p t c = record {
        registered = ev;
        here = et;
        named = refl;
        strips = Strips-visits (visits-retitle t.value (ht_entries t.files)) k;
        table_unique = unique;
        table_get = rw k.same_tags at get;
        same_table = files;
      } in
      (
        tt,
        removed s table s₁ p c,
        rw (load_tag-run s p et, ◌>>=◌, entries-tmp t.value t.files, loop, load_tag-run s₁ p et₁)
            (run
              ∙ ap (λ h. some (tt, record s₁ { tags = table; tag_at = write h p c }))
                  k.same_tag_at),
        record {
          valid = removed-IsValid valid facts;
          view = has_tag-removed valid facts;
          tags_get = facts.table_get;
          same_files = k.same_files;
        },
      )

  -- `tag_remove`, on a tag of a valid store, does not fault and keeps the store valid, whether the
  -- count of the tag falls to 0 or not: no file has the tag afterwards, the table of the tags has no
  -- such name, and every other name and pair of names is as before.
  pub tag_remove_lem :
      {s : Fs} {v : Bytes} {p : Ptr}
      → IsValid s
      → ht_get_entry s.tags v ≡ some p
      → Returns (tag_remove p s) (λ _ s'. WithoutTag s v s')
  tag_remove_lem {s} {v} {p} valid ev =
      let (t, et, named) = valid.tag_named v p ev in
      rw named at (tag_remove_at valid et (rw named ev))
