-- ===== src/Sqlite/Number/Reading.antt =====
-- Decimal numbers read back: by atoi, and out of a text by their runs of digits.
use tag_filesystem.Base.{
  ℕ, zero, suc, ◌+◌, ◌-◌, ◌*◌, ◌/◌, ◌%◌, ◌^◌, ◌<◌, ◌≡◌, ◌∙◌, refl, sym, ap, true, false, [], ◌∷◌,
  Bytes, arith, ◌==◌, Bool-cases, inl, inr,
}
use tag_filesystem.Cutil.Libc.{isspace}
use tag_filesystem.Sqlite.Number.{put_digits, decimal, is_digit, digits_value, signed_value, atoi}

pub put_digits_last :
    (fuel n : ℕ) (out : Bytes)
    → (n / 10 == 0) ≡ true
    → put_digits (suc fuel) n out ≡ (48 + n % 10) ∷ out
unfolding put_digits
put_digits_last fuel n out e = rw (e, put_digits) refl

pub put_digits_more :
    (fuel n : ℕ) (out : Bytes)
    → (n / 10 == 0) ≡ false
    → put_digits (suc fuel) n out ≡ put_digits fuel (n / 10) ((48 + n % 10) ∷ out)
unfolding put_digits
put_digits_more fuel n out e = rw (e, put_digits) refl

pub digit_is : (n : ℕ) → is_digit (48 + n % 10) ≡ true
digit_is n = ground arith

-- a run of digits in front of something
put_digits_head :
    (fuel n : ℕ) (out : Bytes)
    → n < fuel
    → (c : ℕ) × (cs : Bytes) × (put_digits fuel n out ≡ c ∷ cs) × (is_digit c ≡ true)
put_digits_head zero n out h = absurd (omega arith)
put_digits_head (suc fuel) n out h = elim (Bool-cases (n / 10 == 0)) [
  | inl last ↦ (48 + n % 10, out, put_digits_last fuel n out last, digit_is n)
  | inr more ↦
      let (c, cs, e, d) = put_digits_head fuel (n / 10) ((48 + n % 10) ∷ out) (ground arith) in
      (c, cs, put_digits_more fuel n out more ∙ e, d)
]

digits_value_step :
    (a c : ℕ) (cs : Bytes)
    → is_digit c ≡ true
    → digits_value a (c ∷ cs) ≡ digits_value (a * 10 + (c - 48)) cs
unfolding digits_value
digits_value_step a c cs d = rw (d, digits_value) refl

digits_value-put_digits :
    (fuel n : ℕ) (out : Bytes)
    → n < fuel
    → digits_value 0 (put_digits fuel n out) ≡ digits_value n out
digits_value-put_digits zero n out h = absurd (omega arith)
digits_value-put_digits (suc fuel) n out h = elim (Bool-cases (n / 10 == 0)) [
  | inl last ↦
      rw (put_digits_last fuel n out last, digits_value_step 0 (48 + n % 10) out (digit_is n))
        (ap (λ m. digits_value m out) (ground arith))
  | inr more ↦ rw (put_digits_more fuel n out more) (
      digits_value-put_digits fuel (n / 10) ((48 + n % 10) ∷ out) (ground arith)
      ∙ digits_value_step (n / 10) (48 + n % 10) out (digit_is n)
      ∙ ap (λ m. digits_value m out) (omega arith))
]

atoi_digit :
    (c : ℕ) (cs : Bytes) → is_digit c ≡ true → atoi (c ∷ cs) ≡ digits_value 0 (c ∷ cs) % 2 ^ 32
unfolding atoi signed_value isspace
atoi_digit c cs d =
    let space : isspace c ≡ false = ground arith in
    let minus : (c == b'-') ≡ false = ground arith in
    let plus : (c == b'+') ≡ false = ground arith in rw (space, atoi, minus, plus) refl

-- A number that fits an `int` is read back by atoi from its decimal digits.
pub atoi-decimal : (n : ℕ) → n < 2 ^ 32 → atoi (decimal n) ≡ n
unfolding decimal digits_value
atoi-decimal n h =
    let (c, cs, e, d) = put_digits_head (suc n) n [] (omega arith) in
    rw (e, atoi_digit c cs d)
      (ap (λ bytes. digits_value 0 bytes % 2 ^ 32) (sym e)
        ∙ ap (λ m. m % 2 ^ 32) (digits_value-put_digits (suc n) n [] (omega arith))
        ∙ omega arith)
