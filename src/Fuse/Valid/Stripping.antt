-- ===== src/Fuse/Valid/Stripping.antt =====
-- The loop of `tag_remove`, which takes a tag from the files that the tag has.
use tag_filesystem.Base.{
  ℕ, ◌≡◌, ◌∙◌, refl, sym, ap, Bool, true, false, ◌&&◌, ◌||◌, none, some, [], ◌∷◌, ◌++◌, Bytes,
  arith, is_some, append-nil, append_assoc, if◌then◌else◌, str_eq, ◌==◌, ==_iff, Bool-cases,
  Option-cases, inl, inr,
}
use mathlib.Core.Option.{some-injective}
use tag_filesystem.Cutil.HashTable.{
  Ptr, Entries, Uthash, HashTable, IsUnique, Among, iterate, ht_create, ht_entries, ht_for_each,
  ht_get_entry, ht_add_entry, ht_remove_entry, IsUnique-remove, get-remove, entries-add,
  entries-create,
}
use tag_filesystem.Fuse.File.Notify.{AllOpen, retagged, file_remove_tag-retagged}
use tag_filesystem.Fuse.File.{file_remove_tag}
use tag_filesystem.Fuse.Os.{Os}
use tag_filesystem.Fuse.State.{Tag, File, Fs, write, for_each}
use tag_filesystem.Base.Store.{Returns, Returns-bind, Returns-mono}

-- an entry has this value
abbrev pub visits : Entries → Ptr → Bool
visits [] q = false
visits ((_, q') ∷ es) q = (q == q') || visits es q

pub Among-visits : (n : Bytes) (q : Ptr) (es : Entries) → Among n q es → visits es q ≡ true
Among-visits n q [] a = absurd a
Among-visits n q ((_, q') ∷ es) (inl (_, e)) = ground (arith, ==_iff q q')
Among-visits n q ((_, q') ∷ es) (inr a) = ground (arith, Among-visits n q es a)

-- the entries under one key
abbrev pub retitle : Bytes → Entries → Entries
retitle v [] = []
retitle v ((_, q) ∷ es) = (v, q) ∷ retitle v es

pub visits-retitle : (v : Bytes) (es : Entries) (q : Ptr) → visits (retitle v es) q ≡ visits es q
visits-retitle v [] q = refl
visits-retitle v ((_, q') ∷ es) q = ground (arith, visits-retitle v es q)

module _ ⦃U : Uthash⦄ ⦃O : Os⦄ where
  entries-iterate :
      (v : Bytes) (es : Entries) (h : HashTable)
      → ht_entries (iterate es (λ _ q tmp. (ht_add_entry tmp v q).1) h)
        ≡ ht_entries h ++ retitle v es
  unfolding iterate
  entries-iterate v [] h = rw append-nil
  entries-iterate v ((k, q) ∷ es) h =
      entries-iterate v es (ht_add_entry h v q).1 ∙ rw (entries-add, append_assoc)

  -- the table `tmp` of `tag_remove`
  pub entries-tmp :
      (v : Bytes) (h : HashTable)
      → ht_entries (ht_for_each h (λ _ q tmp. (ht_add_entry tmp v q).1) ht_create)
        ≡ retitle v (ht_entries h)
  unfolding ht_for_each ht_entries
  entries-tmp v h = entries-iterate v (ht_entries h) ht_create ∙ rw entries-create

  -- what a file keeps; `gone` says if it lost the tag `v`
  pub record Loses (f f' : File) (v : Bytes) (gone : Bool) : Type 0 where
    pub same_name : f'.name ≡ f.name
    pub same_descriptors : f'.descriptors ≡ f.descriptors
    pub unique : IsUnique f'.tags
    pub tags_get :
        (w : Bytes)
        → ht_get_entry f'.tags w ≡ (if gone && str_eq v w then none else ht_get_entry f.tags w)

  -- the files that lost the tag are those that `gone` tells; only files and the world changed
  pub record Strips (s s' : Fs) (v : Bytes) (gone : Ptr → Bool) : Type 0 where
    pub same_tags : s'.tags ≡ s.tags
    pub same_files : s'.files ≡ s.files
    pub same_tag_at : s'.tag_at ≡ s.tag_at
    pub same_fd_at : s'.fd_at ≡ s.fd_at
    pub same_next : s'.next ≡ s.next
    pub kept :
        (q : Ptr) (f : File)
        → s.file_at q ≡ some f
        → (f' : File) × (s'.file_at q ≡ some f') × Loses f f' v (gone q)
    pub no_more : (q : Ptr) → is_some (s'.file_at q) ≡ is_some (s.file_at q)

  -- what the loop needs of the files
  pub record CanStrip (s : Fs) : Type 0 where
    pub tags_unique : (q : Ptr) (f : File) → s.file_at q ≡ some f → IsUnique f.tags
    pub open' : (q : Ptr) (f : File) → s.file_at q ≡ some f → AllOpen s (ht_entries f.descriptors)

  abbrev pub AllFiles : Fs → Entries → Type 0
  AllFiles s [] = Unit
  AllFiles s ((_, q) ∷ es) = (is_some (s.file_at q) ≡ true) × AllFiles s es

  AllFiles-Strips :
      {s s' : Fs} {v : Bytes} {gone : Ptr → Bool} (es : Entries)
      → Strips s s' v gone
      → AllFiles s es
      → AllFiles s' es
  AllFiles-Strips [] k all = tt
  AllFiles-Strips ((_, q) ∷ es) k (here, all) = (k.no_more q ∙ here, AllFiles-Strips es k all)

  pub AllOpen-same : (s s' : Fs) (es : Entries) → s'.fd_at ≡ s.fd_at → AllOpen s es → AllOpen s' es
  AllOpen-same s s' [] e all = tt
  AllOpen-same s s' ((_, fd) ∷ es) e ((d, here), all) = ((d, rw e here), AllOpen-same s s' es e all)

  -- a file of `s'` is one of `s`
  pub was :
      {s s' : Fs} {v : Bytes} {gone : Ptr → Bool} (q : Ptr) (f' : File)
      → Strips s s' v gone
      → s'.file_at q ≡ some f'
      → (f : File) × (s.file_at q ≡ some f) × Loses f f' v (gone q)
  was {s} {s'} {v} {gone} q f' k e' = elim (Option-cases (s.file_at q)) [
    | inl e ↦ absurd (ground (arith, k.no_more q))
    | inr (f, e) ↦
        let (f'', e'', l) = k.kept q f e in
        let same : f'' ≡ f' = some-injective f'' f' (sym e'' ∙ e') in (f, e, rw same at l)
  ]

  CanStrip-Strips :
      {s s' : Fs} {v : Bytes} {gone : Ptr → Bool} → Strips s s' v gone → CanStrip s → CanStrip s'
  CanStrip-Strips {s} {s'} k c = record {
    tags_unique = λ q f' e'. let (f, e, l) = was q f' k e' in l.unique;
    open' = λ q f' e'.
        let (f, e, l) = was q f' k e' in
        rw l.same_descriptors
          (AllOpen-same s s' (ht_entries f.descriptors) k.same_fd_at (c.open' q f e));
  }

  Loses-none : (f : File) (v : Bytes) → IsUnique f.tags → Loses f f v false
  Loses-none f v u = record {
    same_name = refl;
    same_descriptors = refl;
    unique = u;
    tags_get = λ w. refl;
  }

  retagged-Strips :
      {s : Fs} (q : Ptr) (f : File) (v : Bytes) (r : ℕ) (w : O.World)
      → s.file_at q ≡ some f
      → CanStrip s
      → Strips s (retagged s q f (ht_remove_entry f.tags v).1 r w) v (λ q'. q' == q)
  unfolding write
  retagged-Strips {s} q f v r w ef c = record {
    same_tags = refl;
    same_files = refl;
    same_tag_at = refl;
    same_fd_at = refl;
    same_next = refl;
    kept = λ q' f' e. elim (Bool-cases (q' == q)) [
      | inl same ↦
          let path = some-injective f f' (sym ef ∙ ap s.file_at (sym ((==_iff q' q).0 same)) ∙ e) in
          (
            record f { tags = (ht_remove_entry f.tags v).1; revents = r },
            rw same refl,
            rw⁻¹ path (
                rw same (record {
                  same_name = refl;
                  same_descriptors = refl;
                  unique = IsUnique-remove f.tags v (c.tags_unique q f ef);
                  tags_get = λ x. get-remove f.tags v x (c.tags_unique q f ef);
                })),
          )
      | inr other ↦ (f', rw other e, rw other (Loses-none f' v (c.tags_unique q' f' e)))
    ];
    no_more = λ q'. ground (arith, ==_iff q' q);
  }

  -- one call of `file_remove_tag`
  file_remove_tag-Strips :
      {s : Fs} {p : Ptr} {t : Tag} (q : Ptr)
      → CanStrip s
      → s.tag_at p ≡ some t
      → is_some (s.file_at q) ≡ true
      → Returns (file_remove_tag q p s) (λ _ s'. Strips s s' t.value (λ q'. q' == q))
  file_remove_tag-Strips {s} {p} {t} q c et found = elim (Option-cases (s.file_at q)) [
    | inl e ↦ absurd (ground arith)
    | inr (f, ef) ↦
        let (r, w, run) = file_remove_tag-retagged s q p f t ef et (c.open' q f ef) in
        (tt, _, run, retagged-Strips q f t.value r w ef c)
  ]

  Loses-trans :
      {f g h : File} (v : Bytes) (a b : Bool) → Loses f g v a → Loses g h v b → Loses f h v (a || b)
  Loses-trans {f} {g} {h} v a b k l = record {
    same_name = l.same_name ∙ k.same_name;
    same_descriptors = l.same_descriptors ∙ k.same_descriptors;
    unique = l.unique;
    tags_get = λ w. ground (arith, l.tags_get w, k.tags_get w);
  }

  Strips-trans :
      {s t u : Fs} {v : Bytes} {a b : Ptr → Bool}
      → Strips s t v a
      → Strips t u v b
      → Strips s u v (λ q. a q || b q)
  Strips-trans {s} {t} {u} {v} {a} {b} k l = record {
    same_tags = l.same_tags ∙ k.same_tags;
    same_files = l.same_files ∙ k.same_files;
    same_tag_at = l.same_tag_at ∙ k.same_tag_at;
    same_fd_at = l.same_fd_at ∙ k.same_fd_at;
    same_next = l.same_next ∙ k.same_next;
    kept = λ q f e.
        let (g, e', m) = k.kept q f e in
        let (h, e'', n) = l.kept q g e' in (h, e'', Loses-trans v (a q) (b q) m n);
    no_more = λ q. l.no_more q ∙ k.no_more q;
  }

  Strips-refl : (s : Fs) (v : Bytes) → CanStrip s → Strips s s v (λ q. false)
  Strips-refl s v c = record {
    same_tags = refl;
    same_files = refl;
    same_tag_at = refl;
    same_fd_at = refl;
    same_next = refl;
    kept = λ q f e. (f, e, Loses-none f v (c.tags_unique q f e));
    no_more = λ q. refl;
  }

  -- The loop of `tag_remove` does not fault, and takes the tag from the files that it visits and from no
  -- other.
  pub strip_loop :
      (es : Entries) (p : Ptr) (t : Tag) (s : Fs)
      → CanStrip s
      → AllFiles s es
      → s.tag_at p ≡ some t
      → Returns
          (for_each es (λ _ q. file_remove_tag q p) s)
          (λ _ s'. Strips s s' t.value (visits es))
  unfolding for_each
  strip_loop [] p t s c all et = (tt, s, refl, Strips-refl s t.value c)
  strip_loop ((_, q) ∷ es) p t s c (here, all) et =
      Returns-bind (file_remove_tag q p) _ s (file_remove_tag-Strips q c et here) λ _ s₁ k.
        Returns-mono
          (strip_loop es p t s₁ (CanStrip-Strips k c) (AllFiles-Strips es k all)
            (rw k.same_tag_at et))
          λ _ s₂ l. Strips-trans k l
