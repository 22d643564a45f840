-- ===== src/Fuse/Valid/Names.antt =====
-- The operations that look a name up and create what is missing.
use tag_filesystem.Base.{
  ◌+◌, ◌%◌, ◌^◌, ◌≡◌, ◌∙◌, refl, Bool, none, some, Bytes, arith, Option-cases, inl, inr, str_eq_iff,
}
use tag_filesystem.Cutil.HashTable.{Ptr, Uthash, ht_create, ht_get_entry, get-add}
use tag_filesystem.Fuse.File.{file_new, file_get_or_create}
use tag_filesystem.Fuse.Os.{Os}
use tag_filesystem.Fuse.State.Writes.{load_tag-run, store_tag-run}
use tag_filesystem.Fuse.State.{File, Fs, ◌>>=◌, new_tag, new_file}
use tag_filesystem.Fuse.Tag.{tag_inc_ref, tag_new, tag_get_or_create_in}
use tag_filesystem.Fuse.Util.{path_realpath}
use tag_filesystem.Fuse.Valid.Creation.{
  recount-IsValid, with_tag, with_tag-IsValid, with_file, with_file-IsValid, has_tag-with_file,
}
use tag_filesystem.Base.Store.{Returns}
use tag_filesystem.Fuse.Valid.{IsValid, has_tag}

module _ ⦃U : Uthash⦄ ⦃O : Os⦄ where
  -- `s'` is valid, has every name of `s` at the same place, the same relation between names, and the
  -- same world outside
  pub record Keeps (s s' : Fs) : Type 0 where
    pub valid : IsValid s'
    pub tags :
        (v : Bytes) (p : Ptr) → ht_get_entry s.tags v ≡ some p → ht_get_entry s'.tags v ≡ some p
    pub files :
        (n : Bytes) (q : Ptr) → ht_get_entry s.files n ≡ some q → ht_get_entry s'.files n ≡ some q
    pub view : (n v : Bytes) → has_tag s' n v ≡ has_tag s n v
    pub same_world : s'.world ≡ s.world

  pub Keeps-refl : {s : Fs} → IsValid s → Keeps s s
  Keeps-refl valid = record {
    valid = valid;
    tags = λ v p e. e;
    files = λ n q e. e;
    view = λ n v. refl;
    same_world = refl;
  }

  pub Keeps-trans : {s t u : Fs} → Keeps s t → Keeps t u → Keeps s u
  Keeps-trans a b = record {
    valid = b.valid;
    tags = λ v p e. b.tags v p (a.tags v p e);
    files = λ n q e. b.files n q (a.files n q e);
    view = λ n v. b.view n v ∙ a.view n v;
    same_world = b.same_world ∙ a.same_world;
  }

  pub tag_inc_ref-Keeps :
      {s : Fs} (v : Bytes) {p : Ptr}
      → IsValid s
      → ht_get_entry s.tags v ≡ some p
      → Returns (tag_inc_ref p s) (λ _ s'. Keeps s s')
  unfolding tag_inc_ref has_tag
  tag_inc_ref-Keeps {s} v {p} valid ev =
      let (t, et, _) = valid.tag_named v p ev in
      (
        tt,
        _,
        rw (load_tag-run s p et, ◌>>=◌) (store_tag-run s p _ et),
        record {
          valid = recount-IsValid valid p et t.in_use ((t.ref_count + 1) % 2 ^ 32);
          tags = λ v p e. e;
          files = λ n q e. e;
          view = λ n v. refl;
          same_world = refl;
        },
      )

  pub with_tag-Keeps :
      {s : Fs} (valid : IsValid s) (value : Bytes) (in_use : Bool)
      → ht_get_entry s.tags value ≡ none
      → Keeps s (with_tag s value in_use)
  unfolding has_tag
  with_tag-Keeps {s} valid value in_use absent = record {
    valid = with_tag-IsValid valid value in_use absent;
    tags = λ v p e.
        ground (arith, get-add s.tags value v s.next valid.tags_unique absent, str_eq_iff value v);
    files = λ n q e. e;
    view = λ n v. refl;
    same_world = refl;
  }

  -- `tag_get_or_create__`, on a valid store, does not fault, keeps the store valid, every name at its
  -- address and the relation between names, and returns the tag that the table then has under the name.
  pub tag_get_or_create_in-Keeps :
      {s : Fs} (valid : IsValid s) (value : Bytes) (in_use : Bool)
      → Returns
          (tag_get_or_create_in value in_use s)
          (λ p s'. Keeps s s' × (ht_get_entry s'.tags value ≡ some p))
  unfolding tag_get_or_create_in tag_new new_tag
  tag_get_or_create_in-Keeps {s} valid value in_use =
      elim (Option-cases (ht_get_entry s.tags value)) [
        | inr (p, e) ↦ (p, s, ground arith, (Keeps-refl valid, e))
        | inl e ↦ (
          s.next,
          with_tag s value in_use,
          ground arith,
          (
            with_tag-Keeps valid value in_use e,
            ground (
              arith,
              get-add s.tags value value s.next valid.tags_unique e,
              str_eq_iff value value,
            ),
          ),
        )
      ]

  -- `file_get_or_create`, on a valid store, does not fault, keeps the store valid, every name at its
  -- address and the relation between names, and returns the file that the table then has under the
  -- name.
  pub file_get_or_create-Keeps :
      {s : Fs} (valid : IsValid s) (name : Bytes)
      → Returns
          (file_get_or_create name s)
          (λ q s'. Keeps s s' × (ht_get_entry s'.files name ≡ some q))
  unfolding file_get_or_create file_new new_file
  file_get_or_create-Keeps {s} valid name = elim (Option-cases (ht_get_entry s.files name)) [
    | inr (q, e) ↦ (q, s, ground arith, (Keeps-refl valid, e))
    | inl e ↦
        let f : File = record {
          name = name;
          realpath = path_realpath name;
          tags = ht_create;
          descriptors = ht_create;
          revents = 0;
        } in
        let found = λ (n : Bytes). get-add s.files name n s.next valid.files_unique e in
        (
          s.next,
          with_file s f,
          ground arith,
          (
            record {
              valid = with_file-IsValid valid f refl refl e;
              tags = λ v p e. e;
              files = λ n q en. ground (arith, found n, str_eq_iff name n);
              view = has_tag-with_file valid f refl refl e;
              same_world = refl;
            },
            ground (arith, found name, str_eq_iff name name),
          ),
        )
  ]
