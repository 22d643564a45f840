-- ===== src/Fuse/Util.antt =====
-- fuse/util.c, `path_realpath` of fuse/path.c, and the error numbers.
use tag_filesystem.Base.{ℕ, ◌+◌, [], ◌∷◌, ◌++◌, Bytes, ◌==◌, if◌then◌else◌, codes}
use tag_filesystem.Cutil.Libc.{basename, dirname}
use tag_filesystem.Fuse.Os.{Os}

unfoldable pub get_character_count : Bytes → ℕ → ℕ
get_character_count [] c = 0
get_character_count (x ∷ str) c = (if x == c then 1 else 0) + get_character_count str c

unfoldable pub basenamedup : Bytes → Bytes
basenamedup dir = basename dir

unfoldable pub dirnamedup : Bytes → Bytes
dirnamedup dir = dirname dir

unfoldable pub append_dir : Bytes → Bytes → Bytes
append_dir dir file = dir ++ b'/' ∷ file

unfoldable pub path_realpath : ⦃O : Os⦄ → Bytes → Bytes
path_realpath ⦃O⦄ user_path = append_dir O.realdirpath (basenamedup user_path)

abbrev pub eperm : ℕ
eperm = 1

abbrev pub enoent : ℕ
enoent = 2

abbrev pub enomem : ℕ
enomem = 12

abbrev pub eexist : ℕ
eexist = 17

abbrev pub eisdir : ℕ
eisdir = 21

abbrev pub einval : ℕ
einval = 22

abbrev pub enosys : ℕ
enosys = 38

abbrev pub enodata : ℕ
enodata = 61

abbrev pub eremote : ℕ
eremote = 66

abbrev pub pollin : ℕ
pollin = 1

abbrev pub pollout : ℕ
pollout = 4

-- TAG_FILENAME
abbrev pub tag_filename : Bytes
tag_filename = codes ".tags"
