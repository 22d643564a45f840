-- ===== src/Cutil/String2/Split2.antt =====
-- `string_split2`: it ends, and its pieces give the string back with the delimiter between them.
use mathlib.Core.List.{reverse, reverse-cons, reverse-reverse}
use tag_filesystem.Base.{
  ℕ, zero, suc, ◌<◌, ◌≡◌, refl, sym, ap, ◌∙◌, none, some, List, [], ◌∷◌, ◌++◌, arith, ◌==◌, Bytes,
  length, length-append, append_assoc, append-nil, Bool-cases, Option-cases, inl, inr, ◌⊎◌,
}
use tag_filesystem.Cutil.Libc.{starts_with, strstr}
use tag_filesystem.Cutil.String2.{split2_loop, string_split2}
use tag_filesystem.Cutil.String2.Split.{fill_array-reverse}

-- the pieces, the first of them apart, with the delimiter between them
abbrev pub join : Bytes → Bytes → List Bytes → Bytes
join delim piece [] = piece
join delim piece (next ∷ pieces) = piece ++ (delim ++ join delim next pieces)

-- the delimiter stands in none of the pieces
abbrev pub AreFree : Bytes → List Bytes → Type 0
AreFree delim [] = Unit
AreFree delim (piece ∷ pieces) = (strstr delim piece ≡ none) × AreFree delim pieces

starts_with-append :
    (needle str rest : Bytes) → starts_with needle str ≡ some rest → str ≡ needle ++ rest
unfolding starts_with
starts_with-append [] str rest e = ground arith
starts_with-append (x ∷ xs) [] rest e = ground arith
starts_with-append (x ∷ xs) (y ∷ ys) rest e = elim (Bool-cases (x == y)) [
  | inl same ↦ ground (arith, starts_with-append xs ys rest (rw same at e))
  | inr other ↦ absurd (ground arith)
]

starts_with-prefix :
    (needle xs ys : Bytes) → starts_with needle (xs ++ ys) ≡ none → starts_with needle xs ≡ none
unfolding starts_with
starts_with-prefix [] xs ys e = ground arith
starts_with-prefix (c ∷ cs) [] ys e = refl
starts_with-prefix (c ∷ cs) (x ∷ xs) ys e = ground (arith, starts_with-prefix cs xs ys)

-- what `strstr` finds is the first occurrence
strstr-cases :
    (n : ℕ) (needle str : Bytes)
    → (strstr (n ∷ needle) str ≡ none)
      ⊎ ((before rest : Bytes) × (strstr (n ∷ needle) str ≡ some (before, rest))
          × (str ≡ before ++ ((n ∷ needle) ++ rest))
          × (strstr (n ∷ needle) before ≡ none))
unfolding strstr
strstr-cases n needle [] = inl refl
strstr-cases n needle (c ∷ cs) = elim (Option-cases (starts_with (n ∷ needle) (c ∷ cs))) [
  | inl missing ↦ elim (strstr-cases n needle cs) [
    | inl missing' ↦ inl (rw (missing, strstr, missing') refl)
    | inr (before, rest, e, whole, free) ↦ inr (
      c ∷ before,
      rest,
      rw (missing, strstr, e) refl,
      ap (λ xs. c ∷ xs) whole,
      rw
          (
            starts_with-prefix (n ∷ needle) (c ∷ before) ((n ∷ needle) ++ rest)
                (rw whole at missing),
            strstr,
            free,
          )
          refl,
    )
  ]
  | inr (rest, here) ↦
      inr
        ([], rest, rw (here, strstr) refl, starts_with-append (n ∷ needle) (c ∷ cs) rest here, refl)
]

reverse-push : (x : Bytes) (xs ys : List Bytes) → reverse xs ++ (x ∷ ys) ≡ reverse (x ∷ xs) ++ ys
reverse-push x xs ys = rw (reverse-cons, append_assoc)

split2_loop-pieces :
    (fuel n : ℕ) (needle str : Bytes) (li : List Bytes)
    → length str < fuel
    → (p : Bytes) × (ps : List Bytes) × (split2_loop fuel (n ∷ needle) str li
        ≡ some (reverse (p ∷ ps) ++ li))
      × (join (n ∷ needle) p ps ≡ str)
      × AreFree (n ∷ needle) (p ∷ ps)
unfolding split2_loop
split2_loop-pieces zero n needle str li h = absurd (omega arith)
split2_loop-pieces (suc fuel) n needle str li h = elim (strstr-cases n needle str) [
  | inl missing ↦ (str, [], rw (missing, split2_loop) refl, refl, (missing, tt))
  | inr (before, rest, e, whole, free) ↦
      let (p, ps, e', joined, all_free) = split2_loop-pieces fuel n needle rest (before ∷ li) (
        omega (
          arith,
          ap length whole,
          length-append before ((n ∷ needle) ++ rest),
          length-append needle rest,
        )) in
      (
        before,
        p ∷ ps,
        rw (e, split2_loop) (e' ∙ ap some (reverse-push before (p ∷ ps) li)),
        rw joined (sym whole),
        (free, all_free),
      )
]

-- `string_split2` with a delimiter that is not empty ends on every string; its pieces with the
-- delimiter between them are the string, and the delimiter stands in none of the pieces.
pub string_split2-join :
    (n : ℕ) (needle str : Bytes)
    → (p : Bytes) × (ps : List Bytes) × (string_split2 str (n ∷ needle) ≡ some (p ∷ ps))
      × (join (n ∷ needle) p ps ≡ str)
      × AreFree (n ∷ needle) (p ∷ ps)
unfolding string_split2
string_split2-join n needle str =
    let (p, ps, e, joined, all_free) =
      split2_loop-pieces (suc (length str)) n needle str [] (omega arith) in
    (
      p,
      ps,
      rw (e, string_split2, append-nil)
          (ap some (fill_array-reverse (reverse (p ∷ ps)) [] ∙ rw (append-nil, reverse-reverse))),
      joined,
      all_free,
    )
