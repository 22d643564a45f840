-- ===== src/Fuse/TagFs/Starting.antt =====
-- The reader of the tag database with the `getattr` that `set_root_directory` gives it.
use tag_filesystem.Base.Store.{Returns, Returns-bind, Returns-mono, ◌>>=◌}
use tag_filesystem.Base.{
  ℕ, ◌≡◌, refl, Bool, true, false, ◌||◌, none, some, [], ◌∷◌, ◌++◌, Bytes, ℤ, pos, neg, Option,
  arith, str_eq, ==_iff, if◌then◌else◌,
}
use mathlib.Core.List.{reverse, reverse-cons}
use tag_filesystem.Cutil.HashTable.{Uthash, ht_create, entries-create}
use tag_filesystem.Cutil.Libc.{has_char, skip_chars, from_char_of, dirname, slash, is_nil}
use tag_filesystem.Fuse.Os.{Os, Stat, Result, done, failed}
use tag_filesystem.Fuse.State.{UserPath, Fs, Cmd, pure, for_each, each_entry}
use tag_filesystem.Fuse.Tag.{compute_selected_tags, free_selected_tags}
use tag_filesystem.Fuse.TagDb.{parse_tags_db2}
use tag_filesystem.Fuse.TagDb.Loading.{Loads, Loads-refl, Keeps-Loads, parse_tags_db2-Loads}
use tag_filesystem.Fuse.TagFs.Attr.{getattr_dir, getattr_file, getattr_intra, tag_getattr}
use tag_filesystem.Fuse.UserPath.{path_create, path_delete}
use tag_filesystem.Fuse.Util.{dirnamedup, basenamedup, path_realpath}
use tag_filesystem.Fuse.Valid.Matching.{getattr_file_lem}
use tag_filesystem.Fuse.Valid.{IsValid}

has_char-append : (c : ℕ) (xs ys : Bytes) → has_char c (xs ++ ys) ≡ (has_char c xs || has_char c ys)
unfolding has_char
has_char-append c [] ys = refl
has_char-append c (x ∷ xs) ys = ground (arith, has_char-append c xs ys)

has_char-reverse : (xs : Bytes) → has_char b'/' xs ≡ false → has_char b'/' (reverse xs) ≡ false
unfolding has_char
has_char-reverse [] plain = plain
has_char-reverse (x ∷ xs) plain =
    let rest = has_char-reverse xs (ground arith) in
    rw (reverse-cons, has_char-append) (ground arith)

skip_slash-plain : (xs : Bytes) → has_char b'/' xs ≡ false → skip_chars slash xs ≡ xs
unfolding has_char skip_chars
skip_slash-plain [] plain = refl
skip_slash-plain (x ∷ xs) plain = ground (arith, ==_iff x b'/', ==_iff b'/' x)

from_slash-plain : (xs : Bytes) → has_char b'/' xs ≡ false → from_char_of slash xs ≡ []
unfolding has_char from_char_of
from_slash-plain [] plain = refl
from_slash-plain (x ∷ xs) plain =
    let rest = from_slash-plain xs (ground arith) in ground (arith, ==_iff x b'/', ==_iff b'/' x)

is_nil-append : (xs : Bytes) (c : ℕ) → is_nil (xs ++ c ∷ []) ≡ false
is_nil-append [] c = refl
is_nil-append (x ∷ xs) c = refl

-- a name without a slash is in the directory "."
dirname-plain : (name : Bytes) → has_char b'/' name ≡ false → dirname name ≡ b'.' ∷ []
unfolding dirname
dirname-plain [] plain = refl
dirname-plain (c ∷ cs) plain =
    let plain' = has_char-reverse (c ∷ cs) plain in
    let skip = skip_slash-plain (reverse (c ∷ cs)) plain' in
    let from = from_slash-plain (reverse (c ∷ cs)) plain' in
    let some_char : is_nil (reverse (c ∷ cs)) ≡ false =
      rw reverse-cons (is_nil-append (reverse cs) c) in
    rw (skip, from, some_char) refl

dirnamedup-plain :
    (name : Bytes) → has_char b'/' name ≡ false → str_eq (dirnamedup name) (b'.' ∷ []) ≡ true
unfolding dirnamedup str_eq
dirnamedup-plain name plain = rw (dirname-plain name plain) refl

module _ ⦃U : Uthash⦄ ⦃O : Os⦄ where
  abbrev path_in_root : Bytes → UserPath
  path_in_root name = record {
    realpath = path_realpath name;
    virtpath = name;
    virtdirpath = dirnamedup name;
    filename = basenamedup name;
    selected_tags = ht_create;
  }

  path_create-plain :
      (s : Fs) (name : Bytes)
      → has_char b'/' name ≡ false
      → path_create name false s ≡ some (path_in_root name, s)
  unfolding path_create compute_selected_tags
  path_create-plain s name plain = rw (dirnamedup-plain name plain, ◌>>=◌) refl

  -- what `getattr_dir` does with the result of `stat`
  abbrev answer_dir : Result Stat → Cmd (ℤ × Option Stat)
  answer_dir r = elim r [ done st ↦ pure (pos 0, some st) | failed e ↦ pure (neg 1, none) ]

  answer_dir-Loads :
      {s : Fs} (valid : IsValid s) (r : Result Stat) → Returns (answer_dir r s) (λ _ s'. Loads s s')
  answer_dir-Loads valid (done st) = (_, _, refl, Loads-refl valid)
  answer_dir-Loads valid (failed e) = (_, _, refl, Loads-refl valid)

  getattr_dir-Loads : {s : Fs} (valid : IsValid s) → Returns (getattr_dir s) (λ _ s'. Loads s s')
  unfolding getattr_dir
  getattr_dir-Loads {s} valid = answer_dir-Loads valid (O.stat s.world O.realdirpath)

  -- what `getattr_intra` does with the result of `stat`
  abbrev answer_stat : UserPath → Result Stat → Cmd (ℤ × Option Stat)
  answer_stat path r = elim r [
    | failed e ↦ getattr_dir
    | done st ↦ if st.is_dir then getattr_dir else getattr_file path st
  ]

  Returns-if :
      {A : Type 0} {P : A → Fs → Type 0} (t : Bool) (a b : Cmd A) (s : Fs)
      → Returns (a s) P
      → Returns (b s) P
      → Returns ((if t then a else b) s) P
  Returns-if true a b s p q = p
  Returns-if false a b s p q = q

  answer_stat-Loads :
      {s : Fs} (valid : IsValid s) (name : Bytes) (r : Result Stat)
      → Returns (answer_stat (path_in_root name) r s) (λ _ s'. Loads s s')
  answer_stat-Loads valid name (failed e) = getattr_dir-Loads valid
  answer_stat-Loads {s} valid name (done st) =
      Returns-if st.is_dir getattr_dir (getattr_file (path_in_root name) st) s
        (getattr_dir-Loads valid)
        (Returns-mono (getattr_file_lem valid (path_in_root name) st [] (rw entries-create tt))
          λ _ s' (k, _, _, _). Keeps-Loads k)

  -- nothing is selected, and so nothing is freed
  path_delete-plain : (s : Fs) (name : Bytes) → path_delete (path_in_root name) s ≡ some (tt, s)
  unfolding path_delete free_selected_tags each_entry for_each
  path_delete-plain s name = rw entries-create refl

  tag_getattr-Loads :
      {s : Fs} (valid : IsValid s) (name : Bytes)
      → has_char b'/' name ≡ false
      → Returns (tag_getattr name s) (λ _ s'. Loads s s')
  unfolding tag_getattr getattr_intra
  tag_getattr-Loads {s} valid name plain =
      rw (path_create-plain s name plain, ◌>>=◌)
        (Returns-bind (getattr_intra (path_in_root name)) _ s
          (answer_stat-Loads valid name (O.stat s.world (path_realpath name)))
          λ r s' k. (r, s', rw (path_delete-plain s' name, ◌>>=◌) refl, k))

  -- `parse_tags_db2` with `tag_getattr`, on a valid store and any text without a slash, ends without a
  -- fault, and the store is valid with all its files: the fuel of one round for each byte and one more
  -- is enough.
  pub parse_tags_db2_lem :
      {s : Fs} (valid : IsValid s) (fi : Bytes)
      → has_char b'/' fi ≡ false
      → Returns (parse_tags_db2 fi tag_getattr s) (λ _ s'. Loads s s')
  parse_tags_db2_lem valid fi plain =
      parse_tags_db2-Loads valid fi tag_getattr
        (λ s name plain' valid'. tag_getattr-Loads valid' name plain') plain
