-- ===== src/Sqlite/Examples/Handlers.antt =====
-- The theorems on the handlers of fuse_sqlite3/ at a small store: the file `f` has the tag `red`, and
-- `blue` is a tag as well.
use tag_filesystem.Base.Store.{Returns, write}
use tag_filesystem.Base.{
  ◌≡◌, refl, false, leb, is_some, none, some, List, [], ◌∷◌, Bytes, codes, arith, pos, neg, ltb,
  str_eq, if◌then◌else◌,
}
use tag_filesystem.Cutil.HashTable.Instance.{list_uthash}
use tag_filesystem.Cutil.HashTable.{
  ht_create, ht_add_entry, ht_entries, ht_get_entry, IsUnique-create,
}
use tag_filesystem.Cutil.Libc.{
  basename, dirname, skip_chars, run_without, from_char_of, has_char, slash,
}
use tag_filesystem.Cutil.String2.Split.{words}
use tag_filesystem.Fuse.Examples.Store.{small_os, file_stat}
use tag_filesystem.Fuse.Os.{done}
use tag_filesystem.Fuse.Util.{
  enoent, append_dir, basenamedup, dirnamedup, path_realpath, get_character_count,
}
use tag_filesystem.Sqlite.Examples.Store.{small_sqlite, small_links, empty}
use tag_filesystem.Sqlite.Serving.{
  Call, link_call, rmdir_call, unlink_call, mkdir_call, opendir_call, readdir_call, serve,
}
use tag_filesystem.Sqlite.Serving.Safety.{serve-IsValid}
use tag_filesystem.Sqlite.Serving.Steps.{Safe}
use tag_filesystem.Sqlite.State.{Fs}
use tag_filesystem.Sqlite.TagFs.Attr.{tag_getattr}
use tag_filesystem.Sqlite.TagFs.Tagging.{tag_link, tag_unlink, tag_rename, tag_rmdir}
use tag_filesystem.Sqlite.Statements.{db_file_match_tags}
use tag_filesystem.Sqlite.Valid.Creation.{with_file, with_file-Registers}
use tag_filesystem.Sqlite.Valid.Handling.{Meets, tag_getattr-Meets, all_known, tag_getattr-none}
use tag_filesystem.Sqlite.Valid.Linking.{with_db, with_db-Names}
use tag_filesystem.Sqlite.Valid.LinkingAll.{Relinks}
use tag_filesystem.Sqlite.Valid.Matching.{has_all, Asked, db_file_match_tags_lem}
use tag_filesystem.Sqlite.Valid.Relating.{Gains, tag_link-Gains, tag_unlink-Relinks}
use tag_filesystem.Sqlite.Valid.Selection.{AreKnown}
use tag_filesystem.Sqlite.Valid.Removing.{Removes, tag_rmdir-Removes}
use tag_filesystem.Sqlite.Valid.Renaming.{tag_rename-Relinks}
use tag_filesystem.Sqlite.Valid.Tags.{with_tag, with_tag-Adds}
use tag_filesystem.Sqlite.Valid.{tag_id, file_id, IsValid}

abbrev red : Bytes
red = codes "red"

abbrev blue : Bytes
blue = codes "blue"

abbrev f : Bytes
f = codes "f"

empty-IsValid : IsValid empty
unfolding ht_create ht_get_entry tag_id file_id
empty-IsValid = record {
  names = record {
    tags_unique = IsUnique-create;
    files_unique = IsUnique-create;
    tag_ok = λ v p e. absurd (ground arith);
    file_ok = λ n q e. absurd (ground arith);
    tags_apart = λ v u i e e'. absurd (ground arith);
    files_apart = λ n m i e e'. absurd (ground arith);
    tags_bound = omega arith;
    files_bound = omega arith;
    no_invalid = refl;
    no_null = refl;
    started = omega arith;
    tags_fresh = λ p h. refl;
    files_fresh = λ q h. refl;
  };
  links = λ t g linked. absurd (ground arith);
}

abbrev with_red : Fs
with_red = with_tag empty red empty.db

with_red-IsValid : IsValid with_red
unfolding ht_create ht_get_entry
with_red-IsValid =
    (with_tag-Adds empty red empty-IsValid empty.db refl (omega arith) (ground arith)
      λ t g. refl).valid

abbrev with_blue : Fs
with_blue = with_tag with_red blue empty.db

with_blue-IsValid : IsValid with_blue
unfolding ht_create ht_get_entry ht_add_entry str_eq
with_blue-IsValid =
    (with_tag-Adds with_red blue with_red-IsValid empty.db refl (omega arith) (ground arith)
      λ t g. refl).valid

abbrev with_f : Fs
with_f = with_file with_blue f empty.db

with_f-IsValid : IsValid with_f
unfolding ht_create ht_get_entry
with_f-IsValid =
    (with_file-Registers with_blue f empty.db with_blue-IsValid refl (omega arith)
      λ t g. refl).valid

-- `f` has the tag `red`: the numbers of both are 0
abbrev store : Fs
store = with_db with_f (record { links = (0, 0) ∷ []; names = [] })

store-IsValid : IsValid store
store-IsValid = record {
  names = with_db-Names _ with_f-IsValid.names;
  links = λ t g linked. ground arith;
}

red_known : ht_get_entry store.tags red ≡ some 1
unfolding ht_create ht_get_entry ht_add_entry str_eq
red_known = refl

f_known : ht_get_entry store.files (basenamedup (codes "/red/f")) ≡ some 3
unfolding ht_create ht_get_entry ht_add_entry str_eq basenamedup basename skip_chars run_without
    has_char
f_known = refl

stat_red_f : small_os.stat tt (path_realpath (codes "/red/f")) ≡ done file_stat
unfolding str_eq path_realpath append_dir basenamedup basename skip_chars run_without has_char
stat_red_f = refl

red_dir : str_eq (dirnamedup (codes "/red/f")) (b'.' ∷ []) ≡ false
unfolding str_eq dirnamedup dirname skip_chars from_char_of has_char
red_dir = refl

blue_dir : str_eq (dirnamedup (codes "/blue/f")) (b'.' ∷ []) ≡ false
unfolding str_eq dirnamedup dirname skip_chars from_char_of has_char
blue_dir = refl

red-words : words slash (dirnamedup (codes "/red/f")) ≡ red ∷ []
unfolding dirnamedup dirname skip_chars from_char_of has_char
red-words = refl

blue-words : words slash (dirnamedup (codes "/blue/f")) ≡ blue ∷ []
unfolding dirnamedup dirname skip_chars from_char_of has_char
blue-words = refl

tag_rename-Relinks_example :
    Returns
      (tag_rename (codes "/red/f") (codes "/blue/f") store)
      (λ r s'. (r ≡ pos 0) × Relinks store (basenamedup (codes "/red/f")) (red ∷ []) false s')
tag_rename-Relinks_example =
    tag_rename-Relinks store (codes "/red/f") (codes "/blue/f") file_stat red blue 1 3 store-IsValid
      stat_red_f refl red_dir blue_dir red-words blue-words red_known f_known

tag_getattr-Meets_example : Returns (tag_getattr (codes "/red/f") store) (λ r s'.
    (r ≡ (
      if has_all store (basenamedup (codes "/red/f")) (red ∷ []) then pos 0 else neg enoent,
      some file_stat,
    ))
    × Meets store (basenamedup (codes "/red/f")) s')
tag_getattr-Meets_example =
    tag_getattr-Meets store (codes "/red/f") file_stat red [] store-IsValid (omega arith) stat_red_f
      refl red_dir red-words (refl, tt) ((1, red_known), tt) (omega arith)

f_id : file_id store f ≡ some 0
unfolding file_id ht_create ht_get_entry ht_add_entry str_eq write
f_id = refl

db_file_match_tags_lem_example :
    Returns
      (db_file_match_tags 0 ((red, 1) ∷ []) store)
      (λ b s'. (b ≡ has_all store f (red ∷ [])) × Asked store s')
unfolding ht_entries
db_file_match_tags_lem_example =
    db_file_match_tags_lem store f 0 (red ∷ []) ((red, 1) ∷ []) store-IsValid f_id (omega arith)
      (refl, tt) (refl, red_known, tt) (omega arith)

stat_green_f : small_os.stat tt (path_realpath (codes "/green/f")) ≡ done file_stat
unfolding str_eq path_realpath append_dir basenamedup basename skip_chars run_without has_char
stat_green_f = refl

green_dir : str_eq (dirnamedup (codes "/green/f")) (b'.' ∷ []) ≡ false
unfolding str_eq dirnamedup dirname skip_chars from_char_of has_char
green_dir = refl

green_unknown : all_known store (words slash (dirnamedup (codes "/green/f"))) ≡ false
unfolding ht_create ht_get_entry ht_add_entry str_eq dirnamedup dirname skip_chars from_char_of
    has_char
green_unknown = refl

tag_getattr-none_example : tag_getattr (codes "/green/f") store ≡ none
tag_getattr-none_example =
    tag_getattr-none store (codes "/green/f") file_stat store-IsValid (omega arith) stat_green_f
      refl green_dir green_unknown

one_slash_red : ltb 1 (get_character_count (codes "/red") b'/') ≡ false
unfolding get_character_count
one_slash_red = refl

red_named : ht_get_entry store.tags (basenamedup (codes "/red")) ≡ some 1
unfolding ht_create ht_get_entry ht_add_entry str_eq basenamedup basename skip_chars run_without
    has_char
red_named = refl

tag_rmdir-Removes_example :
    Returns
      (tag_rmdir (codes "/red") store)
      (λ r s'. (r ≡ pos 0) × Removes store (basenamedup (codes "/red")) s')
tag_rmdir-Removes_example =
    tag_rmdir-Removes store (codes "/red") 1 store-IsValid one_slash_red red_named

deep_red_f : leb (get_character_count (codes "/red/f") b'/') 1 ≡ false
unfolding get_character_count
deep_red_f = refl

red_AreKnown : AreKnown store (words slash (dirnamedup (codes "/red/f")))
red_AreKnown = rw red-words ((1, red_known), tt)

blue_known : ht_get_entry store.tags blue ≡ some 2
unfolding ht_create ht_get_entry ht_add_entry str_eq
blue_known = refl

blue_AreKnown : AreKnown store (words slash (dirnamedup (codes "/blue/f")))
blue_AreKnown = rw blue-words ((2, blue_known), tt)

tag_unlink-Relinks_example : Returns (tag_unlink (codes "/red/f") store) (λ r s'.
    (r ≡ (
      if is_some (ht_get_entry store.files (basenamedup (codes "/red/f")))
      then pos 0
      else neg enoent))
    × Relinks store
        (basenamedup (codes "/red/f"))
        (words slash (dirnamedup (codes "/red/f")))
        false
        s')
tag_unlink-Relinks_example =
    tag_unlink-Relinks store (codes "/red/f") store-IsValid deep_red_f red_dir red_AreKnown

tag_link-Gains_example : Returns (tag_link (codes "/red/f") (codes "/blue/f") store) (λ r s'.
    (r ≡ (if has_all store (basenamedup (codes "/red/f")) (red ∷ []) then pos 0 else neg enoent))
    × Gains store
        (basenamedup (codes "/red/f"))
        (has_all store (basenamedup (codes "/red/f")) (red ∷ []))
        (words slash (dirnamedup (codes "/blue/f")))
        s')
tag_link-Gains_example =
    tag_link-Gains store (codes "/red/f") (codes "/blue/f") file_stat red [] store-IsValid
      (omega arith) stat_red_f refl red_dir blue_dir red-words (refl, tt) ((1, red_known), tt)
      blue_AreKnown (omega arith)

-- a link to another tag, an unlink there, the tag of the source removed and made again, and a listing
abbrev calls : List Call
calls =
    link_call (codes "/red/f") (codes "/blue/f")
    ∷ unlink_call (codes "/blue/f")
    ∷ rmdir_call (codes "/red")
    ∷ mkdir_call (codes "/red")
    ∷ opendir_call (codes "/red") 0
    ∷ readdir_call 9 6
    ∷ []

serve-IsValid_example : Safe (serve calls store) (λ _ s'. IsValid s')
serve-IsValid_example =
    serve-IsValid 1 calls store (λ w. omega arith) store-IsValid (omega arith) (omega arith)
      (ground arith)
