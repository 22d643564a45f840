-- ===== src/Cutil/Libc.antt =====
-- The string functions of the C library that the program calls, on strings as lists of bytes.
use mathlib.Core.List.{reverse}
use tag_filesystem.Base.{
  ℕ, Bool, true, false, ◌||◌, ◌&&◌, Option, none, some, [], ◌∷◌, Bytes, ◌==◌, leb, if◌then◌else◌,
}

-- `strchr(cs, c) != NULL`, for a character other than the terminating zero
unfoldable pub has_char : ℕ → Bytes → Bool
has_char c [] = false
has_char c (x ∷ xs) = x == c || has_char c xs

-- strspn and strcspn: the rest behind the characters of `ds`, and the run of the others
unfoldable pub skip_chars : Bytes → Bytes → Bytes
skip_chars ds [] = []
skip_chars ds (c ∷ cs) = if has_char c ds then skip_chars ds cs else c ∷ cs

unfoldable pub run_without : Bytes → Bytes → Bytes
run_without ds [] = []
run_without ds (c ∷ cs) = if has_char c ds then [] else c ∷ run_without ds cs

unfoldable pub from_char_of : Bytes → Bytes → Bytes
from_char_of ds [] = []
from_char_of ds (c ∷ cs) = if has_char c ds then c ∷ cs else from_char_of ds cs

abbrev pub tail_of : Bytes → Bytes
tail_of [] = []
tail_of (c ∷ cs) = cs

abbrev pub is_nil : Bytes → Bool
is_nil [] = true
is_nil (c ∷ cs) = false

-- `strtok_r`: the token and what `saveptr` points to behind it
unfoldable pub strtok_r : Bytes → Bytes → Option (Bytes × Bytes)
unfolding skip_chars run_without from_char_of has_char
strtok_r delim str =
    let s = skip_chars delim str in
    if is_nil s then none else some (run_without delim s, tail_of (from_char_of delim s))

-- the bytes before the first occurrence of `needle`, and those behind it (`strstr`)
unfoldable pub starts_with : Bytes → Bytes → Option Bytes
starts_with [] str = some str
starts_with (x ∷ xs) [] = none
starts_with (x ∷ xs) (y ∷ ys) = if x == y then starts_with xs ys else none

unfoldable pub strstr : Bytes → Bytes → Option (Bytes × Bytes)
unfolding starts_with
strstr needle [] = elim (starts_with needle []) [ none ↦ none | some rest ↦ some ([], rest) ]
strstr needle (c ∷ cs) = elim (starts_with needle (c ∷ cs)) [
  | some rest ↦ some ([], rest)
  | none ↦ elim (strstr needle cs) [ none ↦ none | some (before, rest) ↦ some (c ∷ before, rest) ]
]

abbrev pub slash : Bytes
slash = b'/' ∷ []

-- `basename` of libgen.h
unfoldable pub basename : Bytes → Bytes
unfolding skip_chars run_without has_char
basename path =
    let r = skip_chars slash (reverse path) in
    if is_nil path then b'.' ∷ [] else if is_nil r then slash else reverse (run_without slash r)

-- `dirname` of libgen.h, on a path that does not begin with two slashes
unfoldable pub dirname : Bytes → Bytes
unfolding skip_chars from_char_of has_char
dirname path =
    let r = skip_chars slash (reverse path) in
    let d = from_char_of slash r in
    let e = skip_chars slash d in
    if is_nil path
    then b'.' ∷ []
    else if is_nil r
    then slash
    else if is_nil d
    then b'.' ∷ []
    else if is_nil e
    then slash
    else reverse e

-- `isspace` in the C locale
unfoldable pub isspace : ℕ → Bool
isspace c = c == b' ' || (leb 9 c && leb c 13)
