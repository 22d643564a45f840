-- ===== src/Fuse/File.antt =====
-- fuse/file.c: the files of the root directory, each with the table of its tags and the table of
-- the descriptors that are open on it.
pub mod Notify
use Prim.Native.Nat.{bit_or}
use tag_filesystem.Base.{
  ℕ, ◌+◌, Option, none, some, List, [], ◌∷◌, ◌++◌, Bytes, ◌==◌, if◌then◌else◌, length,
}
use tag_filesystem.Cutil.HashTable.{
  Ptr, Entries, Uthash, ht_create, ht_add_entry, ht_add_unique_entry, ht_remove_entry, ht_get_entry,
  ht_entries, ht_to_list,
}
use tag_filesystem.Fuse.Os.{Os}
use tag_filesystem.Fuse.State.{
  Cmd, pure, ◌>>=◌, ◌>>◌, gets, modify, load_tag, load_file, store_file, new_file, load_fd, syscall,
  each_entry,
}
use tag_filesystem.Fuse.Util.{path_realpath, pollin, pollout}

-- the key of a table that HASH_ADD_PTR fills: the bytes of the pointer, one number for all of them
abbrev pub ptr_key : Ptr → Bytes
ptr_key p = p ∷ []

module _ ⦃U : Uthash⦄ ⦃O : Os⦄ where
  -- the body of the loop of `notify_descriptors_poll`, for the descriptor `fd`
  unfoldable pub notify_descriptor : Ptr → ℕ → Ptr → Cmd (Unit {0})
  notify_descriptor q event fd = do
    d ← load_fd fd
    elim d.ph [
      | none ↦ pure tt
      | some ph ↦ do
        f ← load_file q
        store_file q (record f { revents = bit_or f.revents event })
        syscall (λ w. (tt, O.notify_poll w ph))
    ]

  unfoldable pub notify_descriptors_poll : Ptr → ℕ → Cmd (Unit {0})
  notify_descriptors_poll q event = do
    f ← load_file q
    each_entry f.descriptors (λ _ fd. notify_descriptor q event fd)

  unfoldable pub file_add_tag : Ptr → Ptr → Cmd (Unit {0})
  file_add_tag q p = do
    f ← load_file q
    t ← load_tag p
    store_file q (record f { tags = (ht_add_unique_entry f.tags t.value p).1 })
    notify_descriptors_poll q pollin

  unfoldable pub file_remove_tag : Ptr → Ptr → Cmd (Unit {0})
  file_remove_tag q p = do
    f ← load_file q
    t ← load_tag p
    store_file q (record f { tags = (ht_remove_entry f.tags t.value).1 })
    notify_descriptors_poll q pollout

  unfoldable pub file_list : Cmd (List Ptr)
  file_list = gets (λ s. ht_to_list s.files)

  unfoldable pub file_new : Bytes → Cmd Ptr
  file_new name = new_file (record {
    name = name;
    realpath = path_realpath name;
    tags = ht_create;
    descriptors = ht_create;
    revents = 0;
  })

  unfoldable pub file_get_or_create : Bytes → Cmd Ptr
  file_get_or_create value = do
    found ← gets (λ s. ht_get_entry s.files value)
    elim found [
      | some q ↦ pure q
      | none ↦ do
        q ← file_new value
        modify (λ s. record s { files = (ht_add_entry s.files value q).1 })
        pure q
    ]

  -- `none` is NULL
  unfoldable pub file_get : Bytes → Cmd (Option Ptr)
  file_get value = gets (λ s. ht_get_entry s.files value)

  -- the calls of `each_tag`: the string so far and the number `c` of tags in it
  unfoldable pub tags_string : Entries → Bytes → ℕ → Cmd Bytes
  tags_string [] str c = pure str
  tags_string ((_, p) ∷ es) str c = do
    t ← load_tag p
    tags_string es (str ++ ((if c == 0 then [] else b' ' ∷ []) ++ t.value)) (c + 1)

  -- the string and what `*size` is set to, the length that `asprintf` returns
  unfoldable pub file_get_tags_string : Ptr → Cmd (Bytes × ℕ)
  file_get_tags_string q = do
    f ← load_file q
    str ← tags_string (ht_entries f.tags) [] 0
    pure (str, length str)

  unfoldable pub file_add_descriptor : Ptr → Ptr → Cmd (Unit {0})
  file_add_descriptor q fd = do
    f ← load_file q
    store_file q (record f { descriptors = (ht_add_entry f.descriptors (ptr_key fd) fd).1 })

  unfoldable pub file_remove_descriptor : Ptr → Ptr → Cmd (Unit {0})
  file_remove_descriptor q fd = do
    f ← load_file q
    store_file q (record f { descriptors = (ht_remove_entry f.descriptors (ptr_key fd)).1 })
