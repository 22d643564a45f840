-- ===== src/LowLevel/Inode.antt =====
-- fuse_lowlevel/inode.c: the inodes that the kernel may know, in a table by their numbers.
use tag_filesystem.Base.Store.{pure, ◌>>=◌, ◌>>◌, gets, modify}
use tag_filesystem.Base.{
  ℕ, ◌+◌, ◌-◌, ◌%◌, ◌^◌, Bool, true, false, not, ◌&&◌, Option, none, some, List, [], ◌∷◌, ◌++◌,
  Bytes, ◌==◌, ltb, if◌then◌else◌,
}
use tag_filesystem.Cutil.HashTable.{
  Ptr, Uthash, HashTable, ht_create, ht_add_entry, ht_remove_entry, ht_get_entry,
}
use tag_filesystem.Fuse.Util.{append_dir, basenamedup}
use tag_filesystem.LowLevel.Os.{Os, Attr, Timespec}
use tag_filesystem.LowLevel.State.{
  Cmd, invalid_tag, load_inode, store_inode, free_inode, new_inode, not_null,
}

-- the key of the table `itable`: the bytes of the number, one number for all of them
abbrev pub ino_key : ℕ → Bytes
ino_key n = n ∷ []

-- the conversion of a `fuse_ino_t` to `int` and back
unfoldable pub through_int : ℕ → ℕ
through_int n = let m = n % 2 ^ 32 in if ltb m (2 ^ 31) then m else m + (2 ^ 64 - 2 ^ 32)

abbrev pub no_time : Timespec
no_time = record { tv_sec = 0; tv_nsec = 0 }

-- `struct stat` filled with zeros
abbrev pub zero_attr : Attr
zero_attr = record {
  is_dir = false;
  st_mode = 0;
  st_ino = 0;
  st_size = 0;
  st_atim = no_time;
  st_mtim = no_time;
}

module _ ⦃U : Uthash⦄ ⦃O : Os⦄ where
  unfoldable pub next_inode_number : Cmd ℕ
  unfolding through_int
  next_inode_number s =
      some (through_int s.next_ino, record s { next_ino = (s.next_ino + 1) % 2 ^ 64 })

  unfoldable pub inode_new : Bool → Cmd Ptr
  inode_new directory = do
    number ← next_inode_number
    ino ← new_inode (record {
      number = number;
      is_tagfile = false;
      is_directory = directory;
      st = zero_attr;
      nlookup = 0;
      selected_tags = (if directory then some ht_create else none);
      name = none;
      realpath = none;
      tag = [];
    })
    modify (λ s. record s { itable = (ht_add_entry s.itable (ino_key number) ino).1 })
    pure ino

  -- the assertion holds on the first call: a false one would end the program
  unfoldable pub inode_init : Cmd (Unit {0})
  inode_init = do
    i ← inode_new true
    ino ← load_inode i
    if ino.number == 1 then store_inode i (record ino { nlookup = 1 }) else (λ s. none)

  unfoldable pub inode_delete_if_noref : Ptr → Cmd (Unit {0})
  inode_delete_if_noref i = do
    ino ← load_inode i
    if not (ino.number == 1) && ino.nlookup == 0
        then (do
          modify (λ s. record s { itable = (ht_remove_entry s.itable (ino_key ino.number)).1 })
          free_inode i)
        else pure tt

  -- `tag_get` of tag.c
  unfoldable pub tag_get : Bytes → Cmd Ptr
  tag_get value = gets (λ s. elim (ht_get_entry s.tags value) [ none ↦ invalid_tag | some p ↦ p ])

  -- the loop of `create_directory_inode`, over the tags of the parent
  unfoldable pub select_parent_tags : List Bytes → HashTable → Cmd HashTable
  select_parent_tags [] selected = pure selected
  select_parent_tags (tag ∷ tags) selected = do
    t ← tag_get tag
    select_parent_tags tags (ht_add_entry selected tag t).1

  unfoldable pub create_directory_inode : Ptr → Bytes → Cmd Ptr
  create_directory_inode parent name = do
    i ← inode_new true
    p ← load_inode parent
    ino ← load_inode i
    selected ← not_null ino.selected_tags
    selected' ← select_parent_tags p.tag selected
    t ← tag_get name
    store_inode i (record ino {
      tag = p.tag ++ name ∷ [];
      name = some name;
      selected_tags = some (ht_add_entry selected' name t).1;
    })
    pure i

  unfoldable pub inode_get : ℕ → Cmd (Option Ptr)
  inode_get number = gets (λ s. ht_get_entry s.itable (ino_key number))

  -- `none` is NULL
  unfoldable pub get_or_create_inode : ℕ → Bytes → Bool → Cmd (Option Ptr)
  get_or_create_inode parent name directory = do
    found ← inode_get parent
    elim found [
      | none ↦ pure none
      | some pi ↦ do
        parent_inode ← load_inode pi
        if not parent_inode.is_directory then pure none else (do
          i ← inode_new directory
          ino ← load_inode i
          store_inode i (record ino { name = some name })
          pure (some i))
    ]

  -- `tag_realpath` of real.c
  unfoldable pub tag_realpath : Bytes → Bytes
  tag_realpath user_path = append_dir O.realdirpath (basenamedup user_path)

  unfoldable pub get_or_create_file_inode : ℕ → Bytes → Cmd Ptr
  get_or_create_file_inode parent name = do
    found ← get_or_create_inode parent name false
    i ← not_null found
    ino ← load_inode i
    store_inode i (record ino { realpath = some (tag_realpath name) })
    pure i

  unfoldable pub inode_set_statbuf : Ptr → Attr → Cmd (Unit {0})
  inode_set_statbuf i st = do
    ino ← load_inode i
    store_inode i (record ino { st = record st { st_ino = ino.number } })

  unfoldable pub inode_get_statbuf : Ptr → Cmd Attr
  inode_get_statbuf i = do ino ← load_inode i; pure ino.st
