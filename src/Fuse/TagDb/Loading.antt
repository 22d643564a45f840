-- ===== src/Fuse/TagDb/Loading.antt =====
-- `parse_tags_db2` on a valid store and a text without slashes.
use tag_filesystem.Base.{
  ℕ, zero, suc, ◌≤◌, ◌<◌, ◌≡◌, refl, true, false, Option, none, some, [], ◌∷◌, Bytes, arith, length,
  is_negative, Bool-cases, inl, inr,
}
use tag_filesystem.Cutil.HashTable.{Ptr, Uthash, ht_get_entry}
use tag_filesystem.Cutil.Libc.{is_nil, tail_of, has_char, run_without}
use tag_filesystem.Fuse.File.{file_get_or_create}
use tag_filesystem.Fuse.Os.{Os}
use tag_filesystem.Fuse.State.{Cmd, Fs, pure}
use tag_filesystem.Fuse.Tag.{tag_get_or_create, tag_get_or_create_in, tag_inc_ref, tag_file}
use tag_filesystem.Fuse.TagDb.{
  fgets, max_line, skip_spaces, copy_word_until, begins_with, Getattr, parse_file, parse_tag,
  parse_line, parse_lines, parse_tags_db2,
}
use tag_filesystem.Fuse.Valid.Linking.{tag_file_lem}
use tag_filesystem.Fuse.Valid.Names.{
  Keeps, Keeps-trans, tag_get_or_create_in-Keeps, tag_inc_ref-Keeps, file_get_or_create-Keeps,
}
use tag_filesystem.Base.Store.{Returns, Returns-bind, Returns-mono}
use tag_filesystem.Fuse.Valid.{IsValid}

length-fgets : (n : ℕ) (fi : Bytes) → length (fgets n fi).1 ≤ length fi
unfolding fgets
length-fgets zero fi = omega arith
length-fgets (suc n) [] = omega arith
length-fgets (suc n) (c ∷ fi) = ground (arith, length-fgets n fi)

-- a line takes a byte at least
fgets_shorter : (n : ℕ) (c : ℕ) (fi : Bytes) → length (fgets (suc n) (c ∷ fi)).1 ≤ length fi
unfolding fgets
fgets_shorter n c fi = ground (arith, length-fgets n fi)

-- the pieces of a text without a slash have no slash
fgets-plain :
    (n : ℕ) (fi : Bytes)
    → has_char b'/' fi ≡ false
    → (has_char b'/' (fgets n fi).0 ≡ false) × (has_char b'/' (fgets n fi).1 ≡ false)
unfolding fgets has_char
fgets-plain zero fi plain = (refl, plain)
fgets-plain (suc n) [] plain = (refl, refl)
fgets-plain (suc n) (c ∷ fi) plain =
    let (word, rest) = fgets-plain n fi (ground arith) in (ground arith, ground arith)

skip_spaces-plain :
    (word : Bytes) → has_char b'/' word ≡ false → has_char b'/' (skip_spaces word) ≡ false
unfolding skip_spaces has_char
skip_spaces-plain [] plain = plain
skip_spaces-plain (c ∷ word) plain =
    let rest = skip_spaces-plain word (ground arith) in ground arith

tail_of-plain : (word : Bytes) → has_char b'/' word ≡ false → has_char b'/' (tail_of word) ≡ false
unfolding has_char
tail_of-plain [] plain = plain
tail_of-plain (c ∷ word) plain = ground arith

run_without-plain :
    (ds word : Bytes) → has_char b'/' word ≡ false → has_char b'/' (run_without ds word) ≡ false
unfolding run_without has_char
run_without-plain ds [] plain = plain
run_without-plain ds (c ∷ word) plain =
    let rest = run_without-plain ds word (ground arith) in ground arith

module _ ⦃U : Uthash⦄ ⦃O : Os⦄ where
  -- `s'` is valid, and every file of `s` is in it
  pub record Loads (s s' : Fs) : Type 0 where
    pub valid : IsValid s'
    pub files :
        (n : Bytes) (q : Ptr) → ht_get_entry s.files n ≡ some q → ht_get_entry s'.files n ≡ some q

  pub Loads-refl : {s : Fs} → IsValid s → Loads s s
  Loads-refl valid = record { valid = valid; files = λ n q e. e }

  Loads-trans : {s t u : Fs} → Loads s t → Loads t u → Loads s u
  Loads-trans a b = record { valid = b.valid; files = λ n q e. b.files n q (a.files n q e) }

  pub Keeps-Loads : {s s' : Fs} → Keeps s s' → Loads s s'
  Keeps-Loads k = record { valid = k.valid; files = k.files }

  -- the variable `f` of the reader: NULL, or a file of the table
  abbrev IsKnown : Fs → Option Ptr → Type 0
  IsKnown s none = Unit
  IsKnown s (some q) = (n : Bytes) × (ht_get_entry s.files n ≡ some q)

  IsKnown-Loads : {s s' : Fs} (f : Option Ptr) → Loads s s' → IsKnown s f → IsKnown s' f
  IsKnown-Loads none k known = tt
  IsKnown-Loads (some q) k (n, e) = (n, k.files n q e)

  -- what the reader relies on of its argument `getattr`, on names without a slash
  abbrev pub KeepsStore : Getattr → Type 0
  KeepsStore getattr =
      (s : Fs) (name : Bytes)
      → has_char b'/' name ≡ false
      → IsValid s
      → Returns (getattr name s) (λ r s'. Loads s s')

  tag_get_or_create-Keeps :
      {s : Fs} (valid : IsValid s) (v : Bytes)
      → Returns (tag_get_or_create v s) (λ p s'. Keeps s s' × (ht_get_entry s'.tags v ≡ some p))
  unfolding tag_get_or_create
  tag_get_or_create-Keeps {s} valid v =
      Returns-bind (tag_get_or_create_in v true) _ s (tag_get_or_create_in-Keeps valid v true)
        λ p s₁ (k, ep).
          Returns-bind (tag_inc_ref p) _ s₁ (tag_inc_ref-Keeps v k.valid ep)
            λ _ s₂ l. (p, s₂, refl, (Keeps-trans k l, l.tags v p ep))

  -- the choice of `parse_tag` on `f`
  abbrev tag_known : Ptr → Option Ptr → Cmd (Unit {0})
  tag_known p none = pure tt
  tag_known p (some q) = tag_file p q

  tag_known-Loads :
      {s : Fs} (valid : IsValid s) (v : Bytes) (p : Ptr) (f : Option Ptr)
      → ht_get_entry s.tags v ≡ some p
      → IsKnown s f
      → Returns (tag_known p f s) (λ _ s'. Loads s s')
  tag_known-Loads {s} valid v p none ep known = (tt, s, refl, Loads-refl valid)
  tag_known-Loads {s} valid v p (some q) ep (n, en) =
      Returns-mono (tag_file_lem valid ep en)
        λ _ s' c. record { valid = c.valid; files = λ n' q' e. rw c.same_files e }

  parse_tag-Loads :
      {s : Fs} (valid : IsValid s) (f : Option Ptr) (word : Bytes)
      → IsKnown s f
      → Returns (parse_tag f word s) (λ _ s'. Loads s s')
  unfolding parse_tag
  parse_tag-Loads {s} valid f word known =
      let name = copy_word_until word b'\n' in
      elim (Bool-cases (is_nil name)) [
        | inl empty ↦ rw empty (tt, s, refl, Loads-refl valid)
        | inr named ↦ rw named (
            Returns-bind (tag_get_or_create name) _ s (tag_get_or_create-Keeps valid name)
              λ p s₁ (k, ep).
                Returns-mono
                  (tag_known-Loads k.valid name p f ep (IsKnown-Loads f (Keeps-Loads k) known))
                  λ _ s₂ l. Loads-trans (Keeps-Loads k) l)
      ]

  parse_file-Loads :
      {s : Fs} (valid : IsValid s) (getattr : Getattr) (word : Bytes)
      → KeepsStore getattr
      → has_char b'/' word ≡ false
      → Returns (parse_file getattr word s) (λ f s'. Loads s s' × IsKnown s' f)
  unfolding parse_file copy_word_until
  parse_file-Loads {s} valid getattr word keeps plain =
      let name = copy_word_until word b']' in
      Returns-bind (getattr name) _ s
        (keeps s name (run_without-plain (b']' ∷ []) word plain) valid)
        λ (res, st) s₁ k. elim (Bool-cases (is_negative res)) [
          | inl failed ↦ rw failed (none, s₁, refl, (k, tt))
          | inr found ↦ rw found (
              Returns-bind (file_get_or_create name) _ s₁ (file_get_or_create-Keeps k.valid name)
                λ q s₂ (l, eq). (some q, s₂, refl, (Loads-trans k (Keeps-Loads l), (name, eq))))
        ]

  parse_line-Loads :
      {s : Fs} (valid : IsValid s) (getattr : Getattr) (f : Option Ptr) (word : Bytes)
      → KeepsStore getattr
      → IsKnown s f
      → has_char b'/' word ≡ false
      → Returns (parse_line getattr f word s) (λ f' s'. Loads s s' × IsKnown s' f')
  unfolding parse_line
  parse_line-Loads {s} valid getattr f word keeps known plain =
      elim (Bool-cases (begins_with b'#' word)) [
        | inl comment ↦ rw comment (f, s, refl, (Loads-refl valid, known))
        | inr line ↦ elim (Bool-cases (begins_with b'[' (skip_spaces word))) [
          | inl file ↦
              rw (line, file)
                (parse_file-Loads valid getattr (tail_of (skip_spaces word)) keeps
                  (tail_of-plain (skip_spaces word) (skip_spaces-plain word plain)))
          | inr tag ↦
              rw (line, tag)
                (Returns-bind (parse_tag f (skip_spaces word)) _ s
                  (parse_tag-Loads valid f (skip_spaces word) known)
                  λ _ s' k. (f, s', refl, (k, IsKnown-Loads f k known)))
        ]
      ]

  parse_lines-Loads :
      (fuel : ℕ) (getattr : Getattr) (f : Option Ptr) (fi : Bytes) (s : Fs)
      → IsValid s
      → KeepsStore getattr
      → IsKnown s f
      → has_char b'/' fi ≡ false
      → length fi < fuel
      → Returns (parse_lines fuel getattr f fi s) (λ _ s'. Loads s s')
  unfolding parse_lines
  parse_lines-Loads zero getattr f fi s valid keeps known plain enough = absurd (omega arith)
  parse_lines-Loads (suc fuel) getattr f [] s valid keeps known plain enough =
      (tt, s, refl, Loads-refl valid)
  parse_lines-Loads (suc fuel) getattr f (c ∷ fi) s valid keeps known plain enough =
      let (word, rest) = fgets max_line (c ∷ fi) in
      Returns-bind (parse_line getattr f word) _ s
        (parse_line-Loads valid getattr f word keeps known (fgets-plain max_line (c ∷ fi) plain).0)
        λ f' s₁ (k, known').
          Returns-mono
            (parse_lines-Loads fuel getattr f' rest s₁ k.valid keeps known'
              (fgets-plain max_line (c ∷ fi) plain).1
              (omega (arith, enough, fgets_shorter 998 c fi)))
            λ _ s₂ l. Loads-trans k l

  pub parse_tags_db2-Loads :
      {s : Fs} (valid : IsValid s) (fi : Bytes) (getattr : Getattr)
      → KeepsStore getattr
      → has_char b'/' fi ≡ false
      → Returns (parse_tags_db2 fi getattr s) (λ _ s'. Loads s s')
  unfolding parse_tags_db2
  parse_tags_db2-Loads {s} valid fi getattr keeps plain =
      parse_lines-Loads (suc (length fi)) getattr none fi s valid keeps tt plain (omega arith)
