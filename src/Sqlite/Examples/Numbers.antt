-- ===== src/Sqlite/Examples/Numbers.antt =====
-- The numbers in a text, and those of the text that fuse_sqlite3/db.c asks for the tags of a file.
use tag_filesystem.Base.{
  ℕ, zero, suc, ◌+◌, ◌-◌, ◌*◌, ◌/◌, ◌%◌, ◌<◌, ◌≡◌, ◌∙◌, refl, sym, ap, true, List, [], ◌∷◌, ◌++◌,
  Bytes, codes, arith, ◌==◌, if◌then◌else◌, append_assoc, append-nil, Bool-cases, inl, inr,
}
use tag_filesystem.Sqlite.Links.{more_numbers, number_list, count_query}
use tag_filesystem.Sqlite.Number.Reading.{put_digits_last, put_digits_more, digit_is}
use tag_filesystem.Sqlite.Number.{put_digits, decimal, is_digit}

-- where the reader stands, with the numbers read so far
pub data Place : Type 0 where
  between : List ℕ → Place
  within : List ℕ → ℕ → Place

unfoldable pub read_digit : Place → ℕ → Place
read_digit (between ns) c = if is_digit c then within ns (c - 48) else between ns
read_digit (within ns n) c =
    if is_digit c then within ns (n * 10 + (c - 48)) else between (ns ++ (n ∷ []))

unfoldable pub read_text : Place → Bytes → Place
unfolding read_digit
read_text p [] = p
read_text p (c ∷ cs) = read_text (read_digit p c) cs

abbrev pub numbers_of : Place → List ℕ
numbers_of (between ns) = ns
numbers_of (within ns n) = ns ++ (n ∷ [])

put_digits-append :
    (fuel n : ℕ) (out rest : Bytes)
    → put_digits fuel n out ++ rest ≡ put_digits fuel n (out ++ rest)
unfolding put_digits
put_digits-append zero n out rest = refl
put_digits-append (suc fuel) n out rest = elim (Bool-cases (n / 10 == 0)) [
  | inl last ↦ rw (last, put_digits) refl
  | inr more ↦ rw (more, put_digits) (put_digits-append fuel (n / 10) ((48 + n % 10) ∷ out) rest)
]

read-within :
    (ns : List ℕ) (n d : ℕ) (out : Bytes)
    → is_digit d ≡ true
    → read_text (within ns n) (d ∷ out) ≡ read_text (within ns (n * 10 + (d - 48))) out
unfolding read_text read_digit
read-within ns n d out e = rw (e, read_digit) refl

read-between :
    (ns : List ℕ) (d : ℕ) (out : Bytes)
    → is_digit d ≡ true
    → read_text (between ns) (d ∷ out) ≡ read_text (within ns (d - 48)) out
unfolding read_text read_digit
read-between ns d out e = rw (e, read_digit) refl

read-put_digits :
    (fuel n : ℕ) (ns : List ℕ) (out : Bytes)
    → n < fuel
    → read_text (between ns) (put_digits fuel n out) ≡ read_text (within ns n) out
read-put_digits zero n ns out h = absurd (omega arith)
read-put_digits (suc fuel) n ns out h = elim (Bool-cases (n / 10 == 0)) [
  | inl last ↦
      rw (put_digits_last fuel n out last, read-between ns (48 + n % 10) out (digit_is n))
        (ap (λ m. read_text (within ns m) out) (ground arith))
  | inr more ↦ rw (put_digits_more fuel n out more) (
      read-put_digits fuel (n / 10) ns ((48 + n % 10) ∷ out) (ground arith)
      ∙ read-within ns (n / 10) (48 + n % 10) out (digit_is n)
      ∙ ap (λ m. read_text (within ns m) out) (omega arith))
]

read-decimal :
    (n : ℕ) (ns : List ℕ) (rest : Bytes)
    → read_text (between ns) (decimal n ++ rest) ≡ read_text (within ns n) rest
unfolding decimal
read-decimal n ns rest =
    rw (put_digits-append (suc n) n [] rest) (read-put_digits (suc n) n ns rest (omega arith))

read-more_numbers :
    (ts ns : List ℕ) (n : ℕ)
    → read_text (within ns n) (more_numbers ts ++ codes ")") ≡ between (ns ++ (n ∷ ts))
unfolding read_text read_digit
read-more_numbers [] ns n = refl
read-more_numbers (t ∷ ts) ns n =
    ap (λ bytes. read_text (between (ns ++ (n ∷ []))) bytes)
      (append_assoc (decimal t) (more_numbers ts) (codes ")"))
    ∙ read-decimal t (ns ++ (n ∷ [])) (more_numbers ts ++ codes ")")
    ∙ read-more_numbers ts (ns ++ (n ∷ [])) t
    ∙ ap between (append_assoc ns (n ∷ []) (t ∷ ts))

read-number_list :
    (ts ns : List ℕ) → read_text (between ns) (number_list ts ++ codes ")") ≡ between (ns ++ ts)
unfolding read_text read_digit
read-number_list [] ns = ap between (sym (append-nil ns))
read-number_list (t ∷ ts) ns =
    ap (λ bytes. read_text (between ns) bytes)
      (append_assoc (decimal t) (more_numbers ts) (codes ")"))
    ∙ read-decimal t ns (more_numbers ts ++ codes ")")
    ∙ read-more_numbers ts ns t

pub read-count_query :
    (f : ℕ) (ts : List ℕ) → read_text (between []) (count_query f ts) ≡ between (f ∷ ts)
unfolding read_text read_digit
read-count_query f ts =
    read-decimal f [] (codes " AND t_id IN (" ++ (number_list ts ++ codes ")"))
    ∙ read-number_list ts (f ∷ [])
