-- ===== src/LowLevel/Examples/Store.antt =====
-- A small session of fuse_lowlevel/: one file with its inode, two tags with theirs, and the root.
use tag_filesystem.Base.Store.{Heap, write}
use tag_filesystem.Base.{
  ℕ, refl, true, false, none, some, [], ◌∷◌, if◌then◌else◌, str_eq, codes, arith, suc, length,
}
use tag_filesystem.Cutil.HashTable.Instance.{list_uthash}
use tag_filesystem.Cutil.HashTable.{ht_create, ht_get_entry, IsUnique-create}
use tag_filesystem.Fuse.Os.{done, failed}
use tag_filesystem.Fuse.Examples.Store.{small_os, store, store-IsValid, f, red, blue}
use tag_filesystem.Fuse.Valid.{IsValid}
use tag_filesystem.LowLevel.Callback.Creating.{later-IsValid}
use tag_filesystem.LowLevel.Inode.{zero_attr}
use tag_filesystem.LowLevel.Inodes.{AreSound, blank_inode, with_inode, with_inode-AreSound}
use tag_filesystem.LowLevel.Os.{Os, Attr}
use tag_filesystem.LowLevel.State.{Tag, File, Inode, Session}
use tag_filesystem.LowLevel.View.{as_fs, as_tag, as_file, map_heap, map_heap-write}

abbrev pub root_attr : Attr
root_attr = record zero_attr { is_dir = true }

instance abbrev pub small_low_os : Os
small_low_os = record {
  World = ℕ;
  errno = λ w. w;
  stat = λ w path. (if str_eq path (codes "/r") then done root_attr else failed 2, w);
  readdir = λ w. [];
  open_file = λ w path flags. (done 3, w);
  close = λ w fh. (done tt, w);
  lseek = λ w fh off. (done tt, w);
  read = λ w fh len. (done (10 ∷ 20 ∷ []), w);
  write = λ w fh bytes. (done 0, w);
  mknod = λ w path mode device. (done tt, w);
  chmod = λ w path mode. w;
  utimensat = λ w path atim mtim. w;
  read_file = λ w path. none;
  write_file = λ w path text. w;
  direntry = λ name ino off. ino ∷ off ∷ name;
  direntry_size = λ name. suc (suc (length name));
  length-direntry = λ name ino off. refl;
  realdirpath = codes "/r";
}

abbrev pub red_tag : Tag
red_tag = record { value = red; files = ht_create }

abbrev pub blue_tag : Tag
blue_tag = record { value = blue; files = ht_create }

abbrev pub file_f : File
file_f = record { name = f; realpath = codes "/r/f"; tags = ht_create; ino = 4 }

abbrev no_tags : Heap Tag
no_tags p = none

abbrev pub no_inodes : Session
no_inodes = record {
  tags = store.tags;
  files = store.files;
  itable = ht_create;
  next_ino = 1;
  next_gen = 1;
  tagdbpath = none;
  tag_at = write (write no_tags 1 (some red_tag)) 2 (some blue_tag);
  file_at = write (λ q. none) 0 (some file_f);
  inode_at = λ i. none;
  next = 3;
  world = 0;
  replies = [];
}

abbrev pub root_inode : Inode
root_inode = record (blank_inode 1 true) { nlookup = 1 }

abbrev pub file_inode : Inode
file_inode = record (blank_inode 2 false) {
  nlookup = 2;
  name = some f;
  realpath = some (codes "/r/f");
}

abbrev pub red_inode : Inode
red_inode = record (blank_inode 3 true) {
  nlookup = 1;
  name = some red;
  tag = red ∷ [];
  selected_tags = some ((red, 1) ∷ []);
}

abbrev pub blue_inode : Inode
blue_inode = record (blank_inode 4 true) {
  nlookup = 1;
  name = some blue;
  tag = blue ∷ [];
  selected_tags = some ((blue, 2) ∷ []);
}

-- the inodes of the root at 3, of `f` at 4, of `red` at 5, and of `blue` at 6
abbrev pub session : Session
session =
    with_inode (with_inode (with_inode (with_inode no_inodes root_inode) file_inode) red_inode)
      blue_inode

no_inodes-AreSound : AreSound no_inodes
unfolding ht_create ht_get_entry
no_inodes-AreSound = record {
  unique = IsUnique-create;
  unused = λ m h. refl;
  numbered = λ m i e. absurd (ground arith);
  allocated = λ i ino e. absurd (ground arith);
  small = omega arith;
}

pub session-AreSound : AreSound session
session-AreSound =
    let s1 : Session = with_inode no_inodes root_inode in
    let s2 : Session = with_inode s1 file_inode in
    let s3 : Session = with_inode s2 red_inode in
    with_inode-AreSound s3 blue_inode
      (with_inode-AreSound s2 red_inode
        (with_inode-AreSound s1 file_inode
          (with_inode-AreSound no_inodes root_inode no_inodes-AreSound refl (omega arith)) refl
          (omega arith))
        refl (omega arith))
      refl (omega arith)

pub session-IsValid : IsValid (as_fs tt session)
unfolding map_heap
session-IsValid =
    rw
      (
        map_heap-write as_tag (write no_tags 1 (some red_tag)) 2 blue_tag,
        map_heap-write as_tag no_tags 1 red_tag,
        map_heap-write as_file (λ q. none) 0 file_f,
      )
      (later-IsValid tt (later-IsValid tt (later-IsValid tt (later-IsValid tt store-IsValid))))
