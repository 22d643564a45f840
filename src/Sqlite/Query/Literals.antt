-- ===== src/Sqlite/Query/Literals.antt =====
-- What SQL reads in the lists of names of fuse_sqlite3/db.c: a string literal stands between quotes and
-- has a quote doubled, and commas stand between the literals. The list has the names of the selected
-- tags if none has a quote.
use tag_filesystem.Base.{
  ℕ, ◌≡◌, ◌∙◌, refl, ap, true, false, Option, none, some, List, [], ◌∷◌, ◌++◌, Bytes, arith, ◌==◌,
  if◌then◌else◌, append_assoc, append-nil, Bool-cases, inl, inr,
}
use tag_filesystem.Cutil.HashTable.{Entries, Uthash, HashTable, ht_entries, ht_for_each, iterate}
use tag_filesystem.Cutil.Libc.{has_char}
use tag_filesystem.Sqlite.Query.{append_string, tag_list_string}

-- where the reader stands, with the literals read so far
pub data Reading : Type 0 where
  starting : List Bytes → Reading
  inside : List Bytes → Bytes → Reading
  behind_quote : List Bytes → Bytes → Reading
  failed : Reading

unfoldable pub read_byte : Reading → ℕ → Reading
read_byte (starting ws) c =
    if c == 32 then starting ws else if c == 39 then inside ws [] else failed
read_byte (inside ws w) c = if c == 39 then behind_quote ws w else inside ws (w ++ (c ∷ []))
read_byte (behind_quote ws w) c =
    if c == 39
    then inside ws (w ++ (39 ∷ []))
    else if c == 44
    then starting (ws ++ (w ∷ []))
    else if c == 32
    then behind_quote ws w
    else failed
read_byte failed c = failed

unfoldable pub read_bytes : Reading → Bytes → Reading
unfolding read_byte
read_bytes r [] = r
read_bytes r (c ∷ cs) = read_bytes (read_byte r c) cs

unfoldable pub literals_of : Reading → Option (List Bytes)
literals_of (starting []) = some []
literals_of (behind_quote ws w) = some (ws ++ (w ∷ []))
literals_of _ = none

-- the string literals of a list, if it is one
unfoldable pub read_literals : Bytes → Option (List Bytes)
unfolding read_bytes literals_of
read_literals s = literals_of (read_bytes (starting []) s)

abbrev pub names_of : Entries → List Bytes
names_of [] = []
names_of ((n, t) ∷ es) = n ∷ names_of es

-- none of the names has a quote
abbrev pub HaveNoQuote : Entries → Type 0
HaveNoQuote [] = Unit
HaveNoQuote ((n, t) ∷ es) = (has_char 39 n ≡ false) × HaveNoQuote es

read-append :
    (r : Reading) (xs ys : Bytes) → read_bytes r (xs ++ ys) ≡ read_bytes (read_bytes r xs) ys
unfolding read_bytes
read-append r [] ys = refl
read-append r (x ∷ xs) ys = read-append (read_byte r x) xs ys

read-inside :
    (ws : List Bytes) (w n : Bytes)
    → has_char 39 n ≡ false
    → read_bytes (inside ws w) n ≡ inside ws (w ++ n)
unfolding read_bytes has_char
read-inside ws w [] free = rw append-nil refl
read-inside ws w (c ∷ cs) free = elim (Bool-cases (c == 39)) [
  | inl quote ↦ absurd (ground arith)
  | inr other ↦
      rw (other, read_bytes)
        (read-inside ws (w ++ (c ∷ [])) cs (rw other at free)
          ∙ ap (inside ws) (append_assoc w (c ∷ []) cs))
]

read-quoted :
    (ws : List Bytes) (n : Bytes)
    → has_char 39 n ≡ false
    → read_bytes (starting ws) (39 ∷ (n ++ (39 ∷ []))) ≡ behind_quote ws n
unfolding read_bytes
read-quoted ws n free =
    read-append (inside ws []) n (39 ∷ [])
    ∙ ap (λ r. read_bytes r (39 ∷ [])) (read-inside ws [] n free)

read-iterate :
    (es : Entries) (s : Bytes) (ws : List Bytes) (w : Bytes)
    → HaveNoQuote es
    → read_bytes (starting []) s ≡ behind_quote ws w
    → read_literals (iterate es append_string (s, false)).0 ≡ some (ws ++ (w ∷ names_of es))
unfolding read_literals iterate append_string read_bytes
read-iterate [] s ws w free e = rw e refl
read-iterate ((n, t) ∷ es) s ws w (here, free) e =
    read-iterate es _ (ws ++ (w ∷ [])) n free (
      read-append (starting []) s (44 ∷ 32 ∷ 39 ∷ (n ++ (39 ∷ [])))
      ∙ ap (λ r. read_bytes r (44 ∷ 32 ∷ 39 ∷ (n ++ (39 ∷ [])))) e
      ∙ read-quoted (ws ++ (w ∷ [])) n here)
    ∙ ap some (append_assoc ws (w ∷ []) (n ∷ names_of es))

read-first :
    (es : Entries)
    → HaveNoQuote es
    → read_literals (iterate es append_string ([], true)).0 ≡ some (names_of es)
unfolding read_literals iterate append_string
read-first [] free = refl
read-first ((n, t) ∷ es) (here, free) = read-iterate es _ [] n free (read-quoted [] n here)

module _ ⦃U : Uthash⦄ where
  -- Where no name of a selected tag has a quote, SQL reads in the text of `tag_list_string` exactly
  -- the names of the selected tags, in the order of the table.
  pub read_literals-tag_list_string :
      (selected_tags : HashTable)
      → HaveNoQuote (ht_entries selected_tags)
      → read_literals (tag_list_string selected_tags) ≡ some (names_of (ht_entries selected_tags))
  unfolding tag_list_string ht_for_each ht_entries
  read_literals-tag_list_string selected_tags free = read-first (ht_entries selected_tags) free
