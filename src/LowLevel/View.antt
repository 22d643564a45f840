-- ===== src/LowLevel/View.antt =====
-- The tags and the files of fuse_lowlevel/ as a store of fuse/, without the inodes: all tags are in
-- use, no descriptor is open, and the world of fuse/ is `w`. Where this store is valid, what is proved
-- of the relation between names in fuse/ holds here.
use mathlib.Core.Option.{some-injective}
use tag_filesystem.Base.Store.{Heap, write}
use tag_filesystem.Base.{
  ◌≡◌, ◌∙◌, ap, refl, fun_ext, true, none, some, Bytes, arith, ◌==◌, Bool-cases, Option-cases, inl,
  inr, ℕ,
}
use tag_filesystem.Cutil.HashTable.{Ptr, Uthash, ht_create, ht_get_entry}
use tag_filesystem.Fuse.Os.{Os as FuseOs}
use tag_filesystem.Fuse.State.{Tag as FuseTag, File as FuseFile, Fs}
use tag_filesystem.Fuse.Valid.{IsValid}
use tag_filesystem.LowLevel.Os.{Os}
use tag_filesystem.LowLevel.State.{Tag, File, Session}

unfoldable pub map_heap : {A B : Type 0} → (A → B) → Heap A → Heap B
map_heap g h p = elim (h p) [ none ↦ none | some a ↦ some (g a) ]

pub map_heap-write :
    {A B : Type 0} (g : A → B) (h : Heap A) (p : ℕ) (a : A)
    → map_heap g (write h p (some a)) ≡ write (map_heap g h) p (some (g a))
unfolding map_heap write
map_heap-write g h p a = fun_ext λ q. elim (Bool-cases (q == p)) [
  | inl same ↦ rw (same, map_heap, write) refl
  | inr other ↦ rw (other, map_heap, write) refl
]

pub map_heap_at :
    {A B : Type 0} (g : A → B) (h : Heap A) (p : ℕ) {a : A}
    → h p ≡ some a
    → map_heap g h p ≡ some (g a)
unfolding map_heap
map_heap_at g h p e = rw (e, map_heap) refl

module _ ⦃U : Uthash⦄ ⦃O : Os⦄ ⦃F : FuseOs⦄ where
  abbrev pub as_tag : Tag → FuseTag
  as_tag t = record { value = t.value; files = t.files; in_use = true; ref_count = 0 }

  abbrev pub as_file : File → FuseFile
  as_file f = record {
    name = f.name;
    realpath = f.realpath;
    tags = f.tags;
    descriptors = ht_create;
    revents = 0;
  }

  abbrev pub as_fs : F.World → Session → Fs
  as_fs w s = record {
    tags = s.tags;
    files = s.files;
    tag_at = map_heap as_tag s.tag_at;
    file_at = map_heap as_file s.file_at;
    fd_at = λ d. none;
    next = s.next;
    world = w;
  }

  -- an object of the view stands for one of the session
  pub tag_of :
      (s : Session) (p : Ptr) {t' : FuseTag}
      → map_heap as_tag s.tag_at p ≡ some t'
      → (t : Tag) × (s.tag_at p ≡ some t) × (as_tag t ≡ t')
  unfolding map_heap
  tag_of s p e = elim (Option-cases (s.tag_at p)) [
    | inl gone ↦ absurd (ground (arith, gone))
    | inr (t, here) ↦ (t, here, some-injective _ _ (rw (here, map_heap) at e))
  ]

  pub file_of :
      (s : Session) (q : Ptr) {f' : FuseFile}
      → map_heap as_file s.file_at q ≡ some f'
      → (f : File) × (s.file_at q ≡ some f) × (as_file f ≡ f')
  unfolding map_heap
  file_of s q e = elim (Option-cases (s.file_at q)) [
    | inl gone ↦ absurd (ground (arith, gone))
    | inr (f, here) ↦ (f, here, some-injective _ _ (rw (here, map_heap) at e))
  ]

  module _ {w : F.World} (s : Session) (valid : IsValid (as_fs w s)) where
    pub tag_named :
        {v : Bytes} {p : Ptr}
        → ht_get_entry s.tags v ≡ some p
        → (t : Tag) × (s.tag_at p ≡ some t) × (t.value ≡ v)
    tag_named {v} {p} e =
        let (t', et', named) = valid.tag_named v p e in
        let (t, et, same) = tag_of s p et' in (t, et, ap (λ x. x.value) same ∙ named)

    pub file_named :
        {n : Bytes} {q : Ptr}
        → ht_get_entry s.files n ≡ some q
        → (f : File) × (s.file_at q ≡ some f) × (f.name ≡ n)
    file_named {n} {q} e =
        let (f', ef', named) = valid.file_named n q e in
        let (f, ef, same) = file_of s q ef' in (f, ef, ap (λ x. x.name) same ∙ named)
