-- ===== src/LowLevel/File.antt =====
-- fuse_lowlevel/file.c: the files of the root directory, each with its inode and its tags.
use tag_filesystem.Base.Store.{pure, ◌>>=◌, ◌>>◌, gets, modify}
use tag_filesystem.Base.{
  ℕ, ◌+◌, true, Option, none, some, List, [], ◌∷◌, ◌++◌, Bytes, ◌==◌, if◌then◌else◌, str_eq, length,
}
use tag_filesystem.Cutil.HashTable.{
  Ptr, Entries, Uthash, ht_create, ht_add_entry, ht_get_entry, ht_entries, ht_to_list,
}
use tag_filesystem.Fuse.Util.{append_dir, tag_filename}
use tag_filesystem.LowLevel.Inode.{get_or_create_file_inode, tag_realpath}
use tag_filesystem.LowLevel.Os.{Os}
use tag_filesystem.LowLevel.State.{Cmd, load_tag, load_file, new_file, load_inode, store_inode}

module _ ⦃U : Uthash⦄ ⦃O : Os⦄ where
  unfoldable pub file_list : Cmd (List Ptr)
  file_list = gets (λ s. ht_to_list s.files)

  unfoldable pub file_new : Bytes → Cmd Ptr
  file_new name = do
    i ← get_or_create_file_inode 1 name
    q ← new_file (record {
      name = name;
      realpath = tag_realpath (append_dir O.realdirpath name);
      tags = ht_create;
      ino = i;
    })
    if str_eq name tag_filename
        then (do ino ← load_inode i; store_inode i (record ino { is_tagfile = true }))
        else pure tt
    pure q

  unfoldable pub file_get_or_create : Bytes → Cmd Ptr
  file_get_or_create value = do
    found ← gets (λ s. ht_get_entry s.files value)
    elim found [
      | some q ↦ pure q
      | none ↦ do
        q ← file_new value
        modify (λ s. record s { files = (ht_add_entry s.files value q).1 })
        pure q
    ]

  -- `none` is NULL
  unfoldable pub file_get : Bytes → Cmd (Option Ptr)
  file_get value = gets (λ s. ht_get_entry s.files value)

  -- the calls of `each_tag`: the string so far and the number `c` of tags in it
  unfoldable pub tags_string : Entries → Bytes → ℕ → Cmd Bytes
  tags_string [] str c = pure str
  tags_string ((_, p) ∷ es) str c = do
    t ← load_tag p
    tags_string es (str ++ ((if c == 0 then [] else b' ' ∷ []) ++ t.value)) (c + 1)

  -- the string, and `*size`, which is left alone when there is no tag
  unfoldable pub file_get_tags_string : Ptr → ℕ → Cmd (Bytes × ℕ)
  file_get_tags_string q size = do
    f ← load_file q
    str ← tags_string (ht_entries f.tags) [] 0
    pure (str, if length (ht_entries f.tags) == 0 then size else length str)
