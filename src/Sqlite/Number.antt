-- ===== src/Sqlite/Number.antt =====
-- The numbers in the texts of fuse_sqlite3/db.c: %d of xasprintf, and atoi.
pub mod Reading
use tag_filesystem.Base.{
  ℕ, zero, suc, ◌+◌, ◌-◌, ◌*◌, ◌/◌, ◌%◌, ◌^◌, Bool, true, false, ◌&&◌, [], ◌∷◌, Bytes, ltb, leb,
  ◌==◌, if◌then◌else◌,
}
use tag_filesystem.Cutil.Libc.{isspace}

-- the digits of `n` in front of `out`; a number has no more digits than itself and one
unfoldable pub put_digits : ℕ → ℕ → Bytes → Bytes
put_digits zero n out = out
put_digits (suc fuel) n out = elim (n / 10 == 0) [
  | true ↦ (48 + n % 10) ∷ out
  | false ↦ put_digits fuel (n / 10) ((48 + n % 10) ∷ out)
]

unfoldable pub decimal : ℕ → Bytes
unfolding put_digits
decimal n = put_digits (suc n) n []

-- %d, of the bit pattern of an `int`
unfoldable pub format_int : ℕ → Bytes
unfolding decimal
format_int n = if ltb n (2 ^ 31) then decimal n else b'-' ∷ decimal (2 ^ 32 - n)

abbrev pub is_digit : ℕ → Bool
is_digit c = leb 48 c && leb c 57

unfoldable pub digits_value : ℕ → Bytes → ℕ
digits_value n [] = n
digits_value n (c ∷ cs) = elim (is_digit c) [
  | true ↦ digits_value (n * 10 + (c - 48)) cs
  | false ↦ n
]

unfoldable pub signed_value : Bytes → ℕ
unfolding digits_value
signed_value [] = 0
signed_value (c ∷ cs) =
    if c == b'-'
    then (2 ^ 32 - digits_value 0 cs % 2 ^ 32) % 2 ^ 32
    else if c == b'+'
    then digits_value 0 cs % 2 ^ 32
    else digits_value 0 (c ∷ cs) % 2 ^ 32

-- `atoi`, as the bit pattern of an `int`
unfoldable pub atoi : Bytes → ℕ
unfolding signed_value
atoi [] = 0
atoi (c ∷ cs) = elim (isspace c) [ true ↦ atoi cs | false ↦ signed_value (c ∷ cs) ]
