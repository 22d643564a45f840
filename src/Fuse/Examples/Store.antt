-- ===== src/Fuse/Examples/Store.antt =====
-- A small file system: one file, two tags, and paths to them.
use tag_filesystem.Base.{
  ◌≡◌, refl, true, false, none, some, [], ◌∷◌, Bytes, if◌then◌else◌, str_eq, codes, arith,
}
use tag_filesystem.Cutil.HashTable.Instance.{list_uthash}
use tag_filesystem.Cutil.HashTable.{
  ht_create, ht_add_entry, ht_entries, ht_get_entry, IsUnique-create,
}
use tag_filesystem.Fuse.Os.{Os, Stat, done, failed}
use tag_filesystem.Fuse.State.{File, UserPath, Fs}
use tag_filesystem.Fuse.Valid.Creation.{with_tag, with_tag-IsValid, with_file, with_file-IsValid}
use tag_filesystem.Fuse.Valid.Selection.{Selects}
use tag_filesystem.Fuse.Valid.{IsValid}

-- a root directory `/r` that holds one file, `f`
abbrev pub file_stat : Stat
file_stat = record { is_dir = false; st_size = 3 }

instance abbrev pub small_os : Os
small_os = record {
  World = Unit {0};
  stat = λ w path. if str_eq path (codes "/r/f") then done file_stat else failed 2;
  readdir = λ w. record { d_name = codes "f"; is_dir = false } ∷ [];
  open_file = λ w path flags. (done 3, w);
  close = λ w fh. (done tt, w);
  lseek = λ w fh off. (done tt, w);
  read = λ w fh len. (done [], w);
  write = λ w fh bytes. (done 0, w);
  access = λ w path. false;
  mknod = λ w path mode device. (done tt, w);
  truncate = λ w path len. (done tt, w);
  chmod = λ w path mode. (done tt, w);
  chown = λ w path user group. (done tt, w);
  utime = λ w path tb. (done tt, w);
  read_file = λ w path. none;
  write_file = λ w path text. w;
  notify_poll = λ w ph. w;
  pollhandle_destroy = λ w ph. w;
  realdirpath = codes "/r";
  tagdbpath = codes "/r/.tagdb";
}

abbrev pub empty : Fs
empty = record {
  tags = ht_create;
  files = ht_create;
  tag_at = λ p. none;
  file_at = λ q. none;
  fd_at = λ d. none;
  next = 0;
  world = tt;
}

pub empty-IsValid : IsValid empty
unfolding ht_create ht_get_entry
empty-IsValid = record {
  tags_unique = IsUnique-create;
  files_unique = IsUnique-create;
  tag_named = λ v p e. absurd (ground arith);
  file_named = λ n q e. absurd (ground arith);
  tag_ok = λ p t e. absurd (ground arith);
  file_ok = λ q f e. absurd (ground arith);
  mutual' = λ v p t q f ev et ef. absurd (ground arith);
}

abbrev pub f : Bytes
f = codes "f"

abbrev pub red : Bytes
red = codes "red"

abbrev pub blue : Bytes
blue = codes "blue"

abbrev pub file_f : File
file_f = record {
  name = f;
  realpath = codes "/r/f";
  tags = ht_create;
  descriptors = ht_create;
  revents = 0;
}

-- the file `f` at 0 without tags, and the tags `red` at 1 and `blue` at 2
abbrev pub store : Fs
store = with_tag (with_tag (with_file empty file_f) red true) blue true

pub store-IsValid : IsValid store
unfolding ht_create ht_get_entry ht_add_entry str_eq
store-IsValid =
    with_tag-IsValid
      (with_tag-IsValid (with_file-IsValid empty-IsValid file_f refl refl refl) red true refl) blue
      true refl

pub red_at : ht_get_entry store.tags red ≡ some 1
unfolding ht_create ht_get_entry ht_add_entry str_eq
red_at = refl

pub f_at : ht_get_entry store.files f ≡ some 0
unfolding ht_create ht_get_entry ht_add_entry str_eq
f_at = refl

-- the path `/f`, which selects no tag, and the path `/red/f`
abbrev pub plain_path : UserPath
plain_path = record {
  realpath = codes "/r/f";
  virtpath = codes "/f";
  virtdirpath = codes "/";
  filename = f;
  selected_tags = ht_create;
}

abbrev pub red_path : UserPath
red_path = record {
  realpath = codes "/r/f";
  virtpath = codes "/red/f";
  virtdirpath = codes "/red";
  filename = f;
  selected_tags = (red, 1) ∷ [];
}

pub plain-Selects : Selects store [] (ht_entries plain_path.selected_tags)
unfolding ht_create ht_entries
plain-Selects = tt

pub red-Selects : Selects store (red ∷ []) (ht_entries red_path.selected_tags)
unfolding ht_create ht_get_entry ht_add_entry str_eq ht_entries
red-Selects = (refl, refl, tt)

pub stat_f : small_os.stat tt (codes "/r/f") ≡ done file_stat
unfolding str_eq
stat_f = refl
