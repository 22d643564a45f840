-- ===== src/Base/Store.antt =====
-- Programs on a store: a heap of objects for each type, and runs that may fault. An address that was
-- never given out, or was freed, holds nothing.
use Prim.Native.Nat.{ℕ}
use mathlib.Core.Path.{◌≡◌, refl, sym, ◌∙◌, fun_ext, subst}
use mathlib.Core.Logic.{inl, inr}
use mathlib.Core.Bool.{false}
use mathlib.Core.List.{List, [], ◌∷◌}
use mathlib.Core.Option.{Option, none, some, some-injective}
use native.Mathlib.Omega.{arith}
use tag_filesystem.Base.Tests.{◌==◌, ==_iff, if◌then◌else◌, Bool-cases}

-- a heap of objects of one type
abbrev pub Heap : Type 0 → Type 0
Heap A = ℕ → Option A

unfoldable pub write : {A : Type 0} → Heap A → ℕ → Option A → Heap A
write h p c q = if q == p then c else h q

-- a run from a store of type `S`; `none` is a fault
abbrev pub Run : Type 0 → Type 0 → Type 0
Run S A = S → Option (A × S)

module _ {S : Type 0} where
  abbrev pub pure : {A : Type 0} → A → Run S A
  pure a s = some (a, s)

  infixl 5 ◌>>=◌ ◌>>◌
  abbrev pub ◌>>=◌ : {A B : Type 0} → Run S A → (A → Run S B) → Run S B
  ◌>>=◌ m f s = elim (m s) [ none ↦ none | some (a, s') ↦ f a s' ]

  abbrev pub ◌>>◌ : {B : Type 0} → Run S (Unit {0}) → Run S B → Run S B
  m >> k = m >>= λ _. k

  abbrev pub gets : {A : Type 0} → (S → A) → Run S A
  gets f s = some (f s, s)

  abbrev pub modify : (S → S) → Run S (Unit {0})
  modify f s = some (tt, f s)

  -- the rounds of `ht_for_each` for a function that is a command; the entries are those that the
  -- table holds at the start, and no such function here writes the table that is visited
  unfoldable pub for_each :
      {K : Type 0} → List (K × ℕ) → (K → ℕ → Run S (Unit {0})) → Run S (Unit {0})
  for_each [] fun = pure tt
  for_each ((key, value) ∷ es) fun = fun key value >> for_each es fun

  -- a run that ends without a fault, with a postcondition
  abbrev pub Returns : {A : Type 0} → Option (A × S) → (A → S → Type 0) → Type 0
  Returns {A} run P = (a : A) × (s : S) × (run ≡ some (a, s)) × P a s

  pub Returns-bind :
      {A B : Type 0} {P : A → S → Type 0} {Q : B → S → Type 0} (m : Run S A) (k : A → Run S B)
      (s : S)
      → Returns (m s) P
      → ((a : A) (s' : S) → P a s' → Returns (k a s') Q)
      → Returns ((m >>= k) s) Q
  Returns-bind m k s (a, s', e, p) next =
      let (b, s'', e', q) = next a s' p in (b, s'', rw (e, ◌>>=◌) e', q)

  pub Returns-mono :
      {A : Type 0} {P Q : A → S → Type 0} {run : Option (A × S)}
      → Returns run P
      → ((a : A) (s : S) → P a s → Q a s)
      → Returns run Q
  Returns-mono (a, s, e, p) weaken = (a, s, e, weaken a s p)

module _ {A : Type 0} where
  pub write_self : (h : Heap A) (p : ℕ) (c : Option A) → h p ≡ c → write h p c ≡ h
  unfolding write
  write_self h p c e = fun_ext λ q. ground (arith, ==_iff q p)

  pub write-write : (h : Heap A) (p : ℕ) (c d : Option A) → write (write h p c) p d ≡ write h p d
  unfolding write
  write-write h p c d = fun_ext λ q. ground arith

  pub write_at : (h : Heap A) (p : ℕ) (c : Option A) → write h p c p ≡ c
  unfolding write
  write_at h p c = ground (arith, ==_iff p p)

  pub write_elsewhere :
      (h : Heap A) (p q : ℕ) (c : Option A) → (q == p) ≡ false → write h p c q ≡ h q
  unfolding write
  write_elsewhere h p q c e = ground arith

  -- what holds of the new object and of all the old ones holds of every object after the write
  pub write_elim {ℓ} :
      (P : ℕ → A → Type ℓ) (h : Heap A) (p : ℕ) (a : A)
      → P p a
      → ((q : ℕ) (x : A) → (q == p) ≡ false → h q ≡ some x → P q x)
      → (q : ℕ) (x : A) → write h p (some a) q ≡ some x
      → P q x
  unfolding write
  write_elim P h p a new old q x e = elim (Bool-cases (q == p)) [
    | inl same ↦
        let here : write h p (some a) q ≡ some a = rw (same, write) refl in
        let path = (==_iff q p).0 same in
        subst (λ y. P q y) (some-injective a x (sym here ∙ e)) (subst (λ z. P z a) (sym path) new)
    | inr other ↦ old q x other (rw (other, write) at e)
  ]

  -- what holds of every old object holds of every object that is left
  pub write_none_elim {ℓ} :
      (P : ℕ → A → Type ℓ) (h : Heap A) (p : ℕ)
      → ((q : ℕ) (x : A) → h q ≡ some x → P q x)
      → (q : ℕ) (x : A) → write h p none q ≡ some x
      → P q x
  unfolding write
  write_none_elim P h p old q x e = elim (Bool-cases (q == p)) [
    | inl same ↦ absurd (ground arith)
    | inr other ↦ old q x (rw (other, write) at e)
  ]
