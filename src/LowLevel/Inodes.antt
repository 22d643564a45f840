-- ===== src/LowLevel/Inodes.antt =====
-- The table of inodes: numbers are given out once, and every entry is an inode of that number.
use tag_filesystem.Base.Store.{
  ◌>>=◌, write, write_at, write_elsewhere, write_elim, write-write, Returns,
}
use tag_filesystem.Base.{
  ℕ, ◌+◌, ◌%◌, ◌^◌, ◌≤◌, ◌<◌, ◌≡◌, ◌∙◌, refl, ap, Bool, true, false, some, none, List, [], ◌∷◌,
  ◌++◌, Bytes, arith, ◌==◌, ==_iff, if◌then◌else◌, Bool-cases, inl, inr, append_assoc, append-nil,
}
use tag_filesystem.Cutil.HashTable.{
  Ptr, Entries, Uthash, HashTable, IsUnique, IsUnique-add, get-add, entries-add, ht_create,
  ht_entries, ht_get_entry, ht_add_entry, entries-create,
}
use tag_filesystem.LowLevel.Inode.{
  ino_key, through_int, zero_attr, next_inode_number, inode_new, select_parent_tags,
  create_directory_inode, tag_get,
}
use tag_filesystem.LowLevel.Numbers.{ino_key-eq}
use tag_filesystem.LowLevel.Os.{Os}
use tag_filesystem.LowLevel.State.Runs.{load_inode-run, store_inode-run}
use tag_filesystem.LowLevel.State.{Inode, Session, invalid_tag, new_inode}

through_int_lem : (n : ℕ) → n < 2 ^ 31 → through_int n ≡ n
unfolding through_int
through_int_lem n h = ground arith

module _ ⦃U : Uthash⦄ ⦃O : Os⦄ where
  pub record AreSound (s : Session) : Type 0 where
    pub unique : IsUnique s.itable
    pub unused : (m : ℕ) → s.next_ino ≤ m → ht_get_entry s.itable (ino_key m) ≡ none
    pub numbered :
        (m : ℕ) (i : Ptr)
        → ht_get_entry s.itable (ino_key m) ≡ some i
        → (ino : Inode) × (s.inode_at i ≡ some ino) × (ino.number ≡ m)
    pub allocated : (i : Ptr) (ino : Inode) → s.inode_at i ≡ some ino → i < s.next
    pub small : s.next_ino < 2 ^ 31

  -- the inode that `inode_new` makes
  abbrev pub blank_inode : ℕ → Bool → Inode
  blank_inode number directory = record {
    number = number;
    is_tagfile = false;
    is_directory = directory;
    st = zero_attr;
    nlookup = 0;
    selected_tags = (if directory then some ht_create else none);
    name = none;
    realpath = none;
    tag = [];
  }

  -- the session with one inode more, which has the next number
  abbrev pub with_inode : Session → Inode → Session
  with_inode s ino = record s {
    itable = (ht_add_entry s.itable (ino_key s.next_ino) s.next).1;
    next_ino = s.next_ino + 1;
    inode_at = write s.inode_at s.next (some ino);
    next = s.next + 1;
  }

  pub inode_new-run :
      (directory : Bool) (s : Session)
      → s.next_ino < 2 ^ 31
      → inode_new directory s ≡ some (s.next, with_inode s (blank_inode s.next_ino directory))
  unfolding inode_new next_inode_number new_inode
  inode_new-run directory s h =
      let wrap : (s.next_ino + 1) % 2 ^ 64 ≡ s.next_ino + 1 = omega arith in
      rw (through_int_lem s.next_ino h, wrap) refl

  -- the table after an inode more
  pub with_inode-get :
      (s : Session) (ino : Inode)
      → AreSound s
      → (m : ℕ)
      → ht_get_entry (with_inode s ino).itable (ino_key m)
        ≡ (if s.next_ino == m then some s.next else ht_get_entry s.itable (ino_key m))
  with_inode-get s ino sound m =
      get-add s.itable (ino_key s.next_ino) (ino_key m) s.next sound.unique
        (sound.unused s.next_ino (omega arith))
      ∙ rw (ino_key-eq s.next_ino m)

  pub with_inode-AreSound :
      (s : Session) (ino : Inode)
      → AreSound s
      → ino.number ≡ s.next_ino
      → s.next_ino + 1 < 2 ^ 31
      → AreSound (with_inode s ino)
  with_inode-AreSound s ino sound number room =
      let absent = sound.unused s.next_ino (omega arith) in
      record {
        unique = IsUnique-add s.itable (ino_key s.next_ino) s.next sound.unique absent;
        unused = λ m h. with_inode-get s ino sound m ∙ ground (arith, sound.unused m);
        numbered = λ m i e. elim (Bool-cases (s.next_ino == m)) [
          | inl same ↦
              let here : i ≡ s.next = ground (arith, with_inode-get s ino sound m) in
              (ino, rw here (write_at s.inode_at s.next _), number ∙ (==_iff s.next_ino m).0 same)
          | inr other ↦
              let (x, old, named) =
                sound.numbered m i (ground (arith, with_inode-get s ino sound m)) in
              let apart : (i == s.next) ≡ false = ground (arith, sound.allocated i x old) in
              (x, write_elsewhere s.inode_at s.next i (some ino) apart ∙ old, named)
        ];
        allocated =
            write_elim (λ i _. i < s.next + 1) s.inode_at s.next ino (omega arith)
              (λ i x _ e. omega (arith, sound.allocated i x e));
        small = room;
      }

  -- `inode_new`, on a sound table of inodes with room for one number more below 2^31, does not
  -- fault and leaves a sound table, in which the next number, which was not in the table, has the
  -- new inode, and every other number what it had.
  pub inode_new-AreSound :
      (directory : Bool) (s : Session)
      → AreSound s
      → s.next_ino + 1 < 2 ^ 31
      → Returns (inode_new directory s) (λ i s'.
        AreSound s'
        × ((m : ℕ)
            → ht_get_entry s'.itable (ino_key m)
              ≡ (if s.next_ino == m then some i else ht_get_entry s.itable (ino_key m)))
        × (ht_get_entry s.itable (ino_key s.next_ino) ≡ none))
  inode_new-AreSound directory s sound room =
      let ino = blank_inode s.next_ino directory in
      (
        s.next,
        with_inode s ino,
        inode_new-run directory s (omega arith),
        (
          with_inode-AreSound s ino sound refl room,
          with_inode-get s ino sound,
          sound.unused s.next_ino (omega arith),
        ),
      )

  -- what `tag_get` gives for a name, and the entries that `select_parent_tags` makes of names
  abbrev pub choice : HashTable → Bytes → Ptr
  choice tags n = elim (ht_get_entry tags n) [ none ↦ invalid_tag | some p ↦ p ]

  abbrev pub choices : HashTable → List Bytes → Entries
  choices tags [] = []
  choices tags (n ∷ ns) = (n, choice tags n) ∷ choices tags ns

  choices-append :
      (tags : HashTable) (ms ns : List Bytes)
      → choices tags (ms ++ ns) ≡ choices tags ms ++ choices tags ns
  choices-append tags [] ns = refl
  choices-append tags (m ∷ ms) ns = ap (λ es. (m, choice tags m) ∷ es) (choices-append tags ms ns)

  select_parent_tags-choices :
      (tags : List Bytes) (h : HashTable) (s : Session)
      → (h' : HashTable) × (select_parent_tags tags h s ≡ some (h', s))
        × (ht_entries h' ≡ ht_entries h ++ choices s.tags tags)
  unfolding select_parent_tags tag_get
  select_parent_tags-choices [] h s = (h, refl, rw append-nil)
  select_parent_tags-choices (n ∷ ns) h s =
      let (h', run, e) = select_parent_tags-choices ns (ht_add_entry h n _).1 s in
      (h', run, e ∙ rw (entries-add, append_assoc))

  -- the directory inode of a name behind the tags of its parent, with this table of selected tags
  abbrev pub directory_inode : ℕ → Inode → Bytes → HashTable → Inode
  directory_inode number parent name selected = record (blank_inode number true) {
    selected_tags = some selected;
    name = some name;
    tag = parent.tag ++ name ∷ [];
  }

  pub create_directory_inode_lem :
      (pi : Ptr) (parent : Inode) (name : Bytes) (s : Session)
      → AreSound s
      → s.inode_at pi ≡ some parent
      → (h : HashTable) × (ht_entries h ≡ choices s.tags (parent.tag ++ name ∷ []))
        × (create_directory_inode pi name s
            ≡ some (s.next, with_inode s (directory_inode s.next_ino parent name h)))
  unfolding create_directory_inode tag_get
  create_directory_inode_lem pi parent name s sound here =
      let s1 : Session = with_inode s (blank_inode s.next_ino true) in
      let (h, run, e) = select_parent_tags-choices parent.tag ht_create s1 in
      let ino =
        directory_inode s.next_ino parent name (ht_add_entry h name (choice s.tags name)).1 in
      let apart : (pi == s.next) ≡ false = ground (arith, sound.allocated pi parent here) in
      let here' : s1.inode_at pi ≡ some parent =
        write_elsewhere s.inode_at s.next pi _ apart ∙ here in
      (
        (ht_add_entry h name (choice s.tags name)).1,
        rw (entries-add, e, entries-create, choices-append) refl,
        rw
            (
              inode_new-run true s sound.small,
              ◌>>=◌,
              load_inode-run s1 pi here',
              load_inode-run s1 s.next (write_at s.inode_at s.next _),
              run,
            )
            (rw (store_inode-run s1 s.next ino (write_at s.inode_at s.next _), ◌>>=◌, write-write)
              refl),
      )
