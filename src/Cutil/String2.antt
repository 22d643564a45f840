-- ===== src/Cutil/String2.antt =====
-- cutil/string2.c: the functions on strings. The formatting functions `asprintf` and `aasprintf`
-- are concatenations in the model.
pub mod Split
pub mod Split2
use mathlib.Core.List.{reverse}
use tag_filesystem.Base.{
  ℕ, zero, suc, ◌-◌, ◌+◌, Bool, true, false, Option, none, some, List, [], ◌∷◌, ◌++◌, map, Bytes,
  ◌==◌, ltb, str_eq, if◌then◌else◌, length, drop,
}
use tag_filesystem.Cutil.Libc.{strtok_r, strstr}

unfoldable pub character_is_in_string : ℕ → Bytes → Bool
character_is_in_string c [] = false
character_is_in_string c (x ∷ xs) = if c == x then true else character_is_in_string c xs

-- with a non-empty string; `none` is the read of `str[-1]`
unfoldable pub strstripc : Bytes → ℕ → Option Bytes
strstripc [] c = none
strstripc (x ∷ []) c = some (if x == c then [] else x ∷ [])
strstripc (x ∷ y ∷ ys) c = elim (strstripc (y ∷ ys) c) [ none ↦ none | some zs ↦ some (x ∷ zs) ]

unfoldable pub str_replace_char : Bytes → ℕ → ℕ → Bytes
str_replace_char [] from to = []
str_replace_char (x ∷ xs) from to = (if x == from then to else x) ∷ str_replace_char xs from to

unfoldable pub strstrip : Bytes → Option Bytes
unfolding strstripc
strstrip str = strstripc str b'\n'

-- the `while` of `string_split`: `list_add` puts each token in front; `none` is out of fuel
unfoldable pub split_loop : ℕ → Bytes → Bytes → List Bytes → Option (List Bytes)
split_loop zero delim rest li = none
split_loop (suc fuel) delim rest li = elim (strtok_r delim rest) [
  | none ↦ some li
  | some (p, rest') ↦ split_loop fuel delim rest' (p ∷ li)
]

-- the `for` that fills the array from its end
unfoldable pub fill_array : List Bytes → List Bytes → List Bytes
fill_array [] array = array
fill_array (x ∷ li) array = fill_array li (x ∷ array)

-- a string is never NULL here; the number that it returns is the length of the array
unfoldable pub string_split : Bytes → Bytes → Option (List Bytes)
string_split str delim = elim (split_loop (suc (length str)) delim str []) [
  | none ↦ none
  | some li ↦ some (fill_array li [])
]

unfoldable pub split2_loop : ℕ → Bytes → Bytes → List Bytes → Option (List Bytes)
split2_loop zero delim str_ptr1 li = none
split2_loop (suc fuel) delim str_ptr1 li = elim (strstr delim str_ptr1) [
  | none ↦ some (str_ptr1 ∷ li)
  | some (before, str_ptr2) ↦ split2_loop fuel delim str_ptr2 (before ∷ li)
]

unfoldable pub string_split2 : Bytes → Bytes → Option (List Bytes)
string_split2 str delim = elim (split2_loop (suc (length str)) delim str []) [
  | none ↦ none
  | some li ↦ some (fill_array li [])
]

unfoldable pub string_have_extension : Bytes → Bytes → Bool
string_have_extension filename extension =
    let l = length filename in
    let e = length extension in if ltb l e then false else str_eq extension (drop (l - e) filename)
