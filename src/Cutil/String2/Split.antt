-- ===== src/Cutil/String2/Split.antt =====
-- `string_split`: it ends, and its result are the words of the string between delimiters.
use mathlib.Core.List.{reverse, reverse-cons, reverse-reverse}
use tag_filesystem.Base.{
  ℕ, zero, suc, ◌≤◌, ◌<◌, ◌≡◌, refl, sym, ap, ◌∙◌, false, none, some, List, [], ◌∷◌, ◌++◌, arith,
  Bytes, if◌then◌else◌, length, append_assoc, append-nil, Bool-cases, inl, inr, ◌⊎◌,
}
use tag_filesystem.Cutil.Libc.{has_char, skip_chars, run_without, from_char_of, strtok_r, tail_of}
use tag_filesystem.Cutil.String2.{split_loop, fill_array, string_split}

abbrev pub flush : Bytes → List Bytes → List Bytes
flush [] ts = ts
flush (c ∷ cs) ts = (c ∷ cs) ∷ ts

-- the specification: one pass over the string, with the word that is being read
abbrev pub words_from : Bytes → Bytes → Bytes → List Bytes
words_from ds word [] = flush word []
words_from ds word (c ∷ cs) =
    if has_char c ds then flush word (words_from ds [] cs) else words_from ds (word ++ c ∷ []) cs

abbrev pub words : Bytes → Bytes → List Bytes
words ds str = words_from ds [] str

length-skip_chars : (ds str : Bytes) → length (skip_chars ds str) ≤ length str
unfolding skip_chars
length-skip_chars ds [] = omega arith
length-skip_chars ds (c ∷ cs) = ground (arith, length-skip_chars ds cs)

length-from_char_of : (ds str : Bytes) → length (from_char_of ds str) ≤ length str
unfolding from_char_of
length-from_char_of ds [] = omega arith
length-from_char_of ds (c ∷ cs) = ground (arith, length-from_char_of ds cs)

length-tail_of : (str : Bytes) → length (tail_of str) ≤ length str
length-tail_of [] = omega arith
length-tail_of (c ∷ cs) = omega arith

words-skip_chars : (ds str : Bytes) → words ds (skip_chars ds str) ≡ words ds str
unfolding skip_chars
words-skip_chars ds [] = refl
words-skip_chars ds (c ∷ cs) = ground (arith, words-skip_chars ds cs)

words_from-run :
    (ds word str : Bytes)
    → words_from ds word str
      ≡ flush (word ++ run_without ds str) (words ds (tail_of (from_char_of ds str)))
unfolding run_without from_char_of
words_from-run ds word [] = rw append-nil
words_from-run ds word (c ∷ cs) = elim (Bool-cases (has_char c ds)) [
  | inl h ↦ rw (h, append-nil)
  | inr h ↦ rw h (words_from-run ds (word ++ c ∷ []) cs ∙ rw append_assoc)
]

-- nothing is left of the string, or a character that is no delimiter stands first
skip_chars-cases :
    (ds str : Bytes)
    → (skip_chars ds str ≡ [])
      ⊎ ((c : ℕ) × (cs : Bytes) × (skip_chars ds str ≡ c ∷ cs) × (has_char c ds ≡ false))
unfolding skip_chars
skip_chars-cases ds [] = inl refl
skip_chars-cases ds (c ∷ cs) = elim (Bool-cases (has_char c ds)) [
  | inl h ↦ rw h (skip_chars-cases ds cs)
  | inr h ↦ inr (c, cs, rw h refl, h)
]

-- one call of `strtok_r` takes the first word off
pub strtok_r-words :
    (ds str : Bytes)
    → ((strtok_r ds str ≡ none) × (words ds str ≡ []))
      ⊎ ((p rest : Bytes) × (strtok_r ds str ≡ some (p, rest))
          × (words ds str ≡ p ∷ words ds rest)
          × (length rest < length str))
unfolding strtok_r
strtok_r-words ds str = elim (skip_chars-cases ds str) [
  | inl e ↦ inl (rw e refl, sym (words-skip_chars ds str) ∙ rw e refl)
  | inr (c, cs, e, h) ↦ inr (
    c ∷ run_without ds cs,
    tail_of (from_char_of ds cs),
    rw (e, run_without, from_char_of, h) refl,
    sym (words-skip_chars ds str) ∙ rw (e, h) (words_from-run ds (c ∷ []) cs),
    omega (
      arith,
      length-from_char_of ds cs,
      length-tail_of (from_char_of ds cs),
      rw e at (length-skip_chars ds str),
    ),
  )
]

split_loop-words :
    (fuel : ℕ) (ds str : Bytes) (li : List Bytes)
    → length str < fuel
    → split_loop fuel ds str li ≡ some (reverse (words ds str) ++ li)
unfolding split_loop
split_loop-words zero ds str li h = absurd (omega arith)
split_loop-words (suc fuel) ds str li h = elim (strtok_r-words ds str) [
  | inl (e, w) ↦ rw (e, split_loop, w)
  | inr (p, rest, e, w, shorter) ↦
      rw (e, split_loop)
        (split_loop-words fuel ds rest (p ∷ li) (omega arith) ∙ rw (w, reverse-cons, append_assoc))
]

pub fill_array-reverse : (li array : List Bytes) → fill_array li array ≡ reverse li ++ array
unfolding fill_array
fill_array-reverse [] array = refl
fill_array-reverse (x ∷ li) array =
    fill_array-reverse li (x ∷ array) ∙ rw (reverse-cons, append_assoc)

-- `string_split` ends on every string, and returns its maximal runs of characters that are no
-- delimiters, in order, none of them empty.
pub string_split-words : (str ds : Bytes) → string_split str ds ≡ some (words ds str)
unfolding string_split
string_split-words str ds =
    rw (split_loop-words (suc (length str)) ds str [] (omega arith), string_split, append-nil)
      (ap some (fill_array-reverse (reverse (words ds str)) [] ∙ rw (append-nil, reverse-reverse)))
