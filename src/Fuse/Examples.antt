-- ===== src/Fuse/Examples.antt =====
-- The theorems on the small file system of Fuse/Examples/Store.
pub mod Store
use tag_filesystem.Base.{
  ◌≡◌, refl, true, false, none, some, [], ◌∷◌, Bytes, pos, neg, not, ◌&&◌, ◌||◌, if◌then◌else◌,
  str_eq, ltb, codes, is_some, arith,
}
use tag_filesystem.Cutil.HashTable.Instance.{list_uthash}
use tag_filesystem.Cutil.HashTable.{
  ht_create, ht_add_entry, ht_entries, ht_get_entry, IsUnique-create,
}
use tag_filesystem.Cutil.Libc.{slash}
use tag_filesystem.Cutil.String2.Split.{words}
use tag_filesystem.Fuse.File.{file_get_or_create}
use tag_filesystem.Fuse.Os.{Os, Stat, done, failed}
use tag_filesystem.Fuse.State.{File, UserPath, FileDescriptor, Fs}
use tag_filesystem.Fuse.Tag.{tag_file, untag_file, tag_get_or_create_in, compute_selected_tags}
use tag_filesystem.Fuse.TagFs.Attr.{file_matches_tags, getattr_intra}
use tag_filesystem.Fuse.TagFs.Content.{ioctl_read_tags}
use tag_filesystem.Fuse.TagFs.Getting.{Frees, path_delete_lem, tag_getattr_lem}
use tag_filesystem.Fuse.TagFs.Ioctl.{ioctl_read_tags-none}
use tag_filesystem.Fuse.TagFs.Making.{Made, path_create_lem, tag_mkdir_lem}
use tag_filesystem.Fuse.TagFs.Tagging.{path_link, tag_mkdir}
use tag_filesystem.Fuse.UserPath.{path_create}
use tag_filesystem.Fuse.Util.{basenamedup, path_realpath, get_character_count}
use tag_filesystem.Fuse.Valid.Creation.{with_tag, with_tag-IsValid, with_file, with_file-IsValid}
use tag_filesystem.Fuse.Valid.LinkAll.{is_one_of, Links, path_link_lem}
use tag_filesystem.Fuse.Valid.Linking.{Changes, tag_file_lem, untag_file_lem}
use tag_filesystem.Fuse.Valid.Matching.{
  has_all, match_result, file_matches_tags_lem, getattr_intra_lem,
}
use tag_filesystem.Fuse.Valid.Names.{Keeps, tag_get_or_create_in-Keeps}
use tag_filesystem.Base.Store.{Returns}
use tag_filesystem.Fuse.Valid.Selection.{Selects, compute_selected_tags_lem}
use tag_filesystem.Fuse.Valid.Removing.{WithoutTag, tag_remove_lem}
use tag_filesystem.Fuse.Valid.Rmdir.{tag_rmdir_lem}
use tag_filesystem.Fuse.Valid.Unlinking.{Distinct, Untags, path_unlink_lem}
use tag_filesystem.Cutil.Libc.{dirname, basename, skip_chars, run_without, from_char_of, has_char}
use tag_filesystem.Fuse.Util.{append_dir, dirnamedup, enoent}
use tag_filesystem.Fuse.Tag.{tag_remove}
use tag_filesystem.Fuse.TagFs.Attr.{tag_getattr}
use tag_filesystem.Fuse.TagFs.Tagging.{path_unlink, tag_rmdir}
use tag_filesystem.Fuse.UserPath.{path_delete}
use tag_filesystem.Fuse.TagDb.Loading.{Loads}
use tag_filesystem.Cutil.Libc.{has_char}
use tag_filesystem.Fuse.TagFs.Starting.{parse_tags_db2_lem}
use tag_filesystem.Fuse.TagDb.{parse_tags_db2}
use tag_filesystem.Fuse.TagFs.Dir.{readdir_list_files}
use tag_filesystem.Fuse.TagFs.Renaming.{rename_linked_lem}
use tag_filesystem.Fuse.TagFs.Tagging.{rename_linked}
use tag_filesystem.Fuse.TagFs.Listing.{AreFiles, with_all, readdir_list_files_lem}
use tag_filesystem.Fuse.Valid.{IsValid, has_tag}
use tag_filesystem.Fuse.Examples.Store.{
  file_stat, small_os, empty, empty-IsValid, f, red, blue, file_f, store, store-IsValid, red_at,
  f_at, plain_path, red_path, plain-Selects, red-Selects, stat_f,
}

tag_file_lem_example : Returns (tag_file 1 0 store) (λ _ s'. Changes store f red true s')
tag_file_lem_example = tag_file_lem store-IsValid red_at f_at

path_link_lem_example :
    Returns
      (path_link plain_path red_path store)
      (λ res s'. Links store f [] (red ∷ []) s' × (res ≡ match_result (has_all store f [])))
path_link_lem_example =
    path_link_lem store-IsValid plain_path red_path file_stat [] (red ∷ []) plain-Selects
      red-Selects stat_f refl

not_dot : str_eq (codes "/red/green") (b'.' ∷ []) ≡ false
unfolding str_eq
not_dot = refl

path_create_lem_example : Returns (path_create (codes "/red/green") true store) (λ path s'.
    Keeps store s'
    × (path.filename ≡ basenamedup (codes "/red/green"))
    × (path.realpath ≡ path_realpath (codes "/red/green"))
    × Selects s' (words slash (codes "/red/green")) (ht_entries path.selected_tags))
path_create_lem_example = path_create_lem store-IsValid (codes "/red/green") true not_dot

one_slash : ltb 1 (get_character_count (codes "/green") b'/') ≡ false
unfolding get_character_count
one_slash = refl

tag_mkdir_lem_example :
    Returns
      (tag_mkdir (codes "/green") store)
      (λ res s'. Made store (basenamedup (codes "/green")) res s')
tag_mkdir_lem_example = tag_mkdir_lem store-IsValid (codes "/green") one_slash

-- the descriptor 3 of `/f`
abbrev open_f : FileDescriptor
open_f = record {
  path = plain_path;
  is_tag = false;
  is_tag_file = false;
  ph = none;
  target = some 0;
  fh = some 3;
}

abbrev opened : Fs
opened = record store { fd_at = λ d. some open_f }

ioctl_read_tags-none_example :
    ioctl_read_tags 3 (record { size = 0; off = 0; buf = [] }) opened ≡ none
ioctl_read_tags-none_example =
    ioctl_read_tags-none opened 3 open_f 0 (record { size = 0; off = 0; buf = [] }) refl f_at

red-Distinct : Distinct (red ∷ [])
red-Distinct = (refl, tt)

path_unlink_lem_example : Returns (path_unlink red_path store) (λ res s'.
    Untags store f (red ∷ []) s'
    × (res ≡ (if is_some (ht_get_entry store.files f) then pos 0 else neg enoent)))
path_unlink_lem_example = path_unlink_lem store-IsValid red_path (red ∷ []) red-Distinct red-Selects

tag_remove_lem_example : Returns (tag_remove 1 store) (λ _ s'. WithoutTag store red s')
tag_remove_lem_example = tag_remove_lem store-IsValid red_at

one_slash_red : ltb 1 (get_character_count (codes "/red") b'/') ≡ false
unfolding get_character_count
one_slash_red = refl

tag_rmdir_lem_example : Returns (tag_rmdir (codes "/red") store) (λ res s'.
    WithoutTag store (basenamedup (codes "/red")) s'
    × (res ≡ (
        if is_some (ht_get_entry store.tags (basenamedup (codes "/red")))
        then pos 0
        else neg enoent)))
tag_rmdir_lem_example = tag_rmdir_lem store-IsValid (codes "/red") one_slash_red

red_not_dot : str_eq (dirnamedup (codes "/red/f")) (b'.' ∷ []) ≡ false
unfolding str_eq dirnamedup dirname skip_chars from_char_of has_char
red_not_dot = refl

red_words-Distinct : Distinct (words slash (dirnamedup (codes "/red/f")))
unfolding str_eq dirnamedup dirname skip_chars from_char_of has_char
red_words-Distinct = (refl, tt)

stat_red_f : small_os.stat tt (path_realpath (codes "/red/f")) ≡ done file_stat
unfolding str_eq path_realpath append_dir basenamedup basename skip_chars run_without has_char
stat_red_f = refl

tag_getattr_lem_example : Returns (tag_getattr (codes "/red/f") store) (λ r s'.
    IsValid s'
    × is_some (ht_get_entry s'.files (basenamedup (codes "/red/f"))) ≡ true
    × (r.0
        ≡ match_result (
            has_all store
              (basenamedup (codes "/red/f"))
              (words slash (dirnamedup (codes "/red/f")))))
    × is_some r.1 ≡ true)
tag_getattr_lem_example =
    tag_getattr_lem store-IsValid (codes "/red/f") file_stat red_not_dot red_words-Distinct
      stat_red_f refl

small_os-AreFiles : AreFiles tt (small_os.readdir tt)
unfolding str_eq append_dir
small_os-AreFiles = (λ e. (file_stat, refl, refl), tt)

readdir_list_files_lem_example :
    Returns
      (readdir_list_files red_path store)
      (λ names s'. Keeps store s' × (names ≡ with_all store (red ∷ []) (small_os.readdir tt)))
readdir_list_files_lem_example =
    readdir_list_files_lem store-IsValid red_path (red ∷ []) red-Selects small_os-AreFiles

parse_tags_db2_lem_example :
    Returns
      (parse_tags_db2 (codes "# tags\n[f]\nred\ngreen\n\n[g]\nblue\n") tag_getattr store)
      (λ _ s'. Loads store s')
unfolding has_char
parse_tags_db2_lem_example =
    parse_tags_db2_lem store-IsValid (codes "# tags\n[f]\nred\ngreen\n\n[g]\nblue\n") refl

abbrev blue_path : UserPath
blue_path = record red_path { selected_tags = (blue, 2) ∷ [] }

blue-Selects : Selects store (blue ∷ []) (ht_entries blue_path.selected_tags)
unfolding ht_create ht_get_entry ht_add_entry str_eq ht_entries
blue-Selects = (refl, refl, tt)

rename_linked_lem_example : Returns (rename_linked red_path blue_path store) (λ res s'.
    IsValid s'
    × (res ≡ pos 0)
    × ((n v : Bytes)
        → has_tag s' n v ≡ (
            not (str_eq f n && is_one_of v (red ∷ []))
            && ((has_all store f (red ∷ []) && (str_eq f n && is_one_of v (blue ∷ [])))
                || has_tag store n v))))
rename_linked_lem_example =
    rename_linked_lem store-IsValid red_path blue_path file_stat (red ∷ []) (blue ∷ []) red-Distinct
      red-Selects blue-Selects stat_f refl
