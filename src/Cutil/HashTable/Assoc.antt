-- ===== src/Cutil/HashTable/Assoc.antt =====
-- Association lists: what a table holds, in the order in which the entries were added.
use tag_filesystem.Base.{
  ℕ, ◌≡◌, refl, Option, none, some, List, [], ◌∷◌, ◌++◌, arith, Bytes, str_eq, str_eq_iff,
  if◌then◌else◌, is_some, length, suc, ◌⊎◌, inl, inr,
}

-- the address of an object
abbrev pub Ptr : Type 0
Ptr = ℕ

abbrev pub Entries : Type 0
Entries = List (Bytes × Ptr)

abbrev pub lookup : Bytes → Entries → Option Ptr
lookup k [] = none
lookup k ((j, v) ∷ es) = if str_eq j k then some v else lookup k es

abbrev pub erase : Bytes → Entries → Entries
erase k [] = []
erase k ((j, v) ∷ es) = if str_eq j k then es else (j, v) ∷ erase k es

abbrev pub Unique : Entries → Type 0
Unique [] = Unit
Unique ((k, v) ∷ es) = (lookup k es ≡ none) × Unique es

-- the entry is one of the list
abbrev pub Among : Bytes → Ptr → Entries → Type 0
Among k v [] = ⊥
Among k v ((j, w) ∷ es) = ((j ≡ k) × (w ≡ v)) ⊎ Among k v es

pub lookup-append :
    (k : Bytes) (es fs : Entries)
    → lookup k (es ++ fs) ≡ (if is_some (lookup k es) then lookup k es else lookup k fs)
lookup-append k [] fs = refl
lookup-append k ((j, v) ∷ es) fs = ground (arith, lookup-append k es fs)

pub lookup-erase :
    (k j : Bytes) (es : Entries)
    → Unique es
    → lookup j (erase k es) ≡ (if str_eq k j then none else lookup j es)
lookup-erase k j [] u = ground arith
lookup-erase k j ((i, v) ∷ es) u =
    ground (arith, lookup-erase k j es, str_eq_iff i k, str_eq_iff i j, str_eq_iff k j)

pub Unique-append :
    (k : Bytes) (v : Ptr) (es : Entries)
    → Unique es
    → lookup k es ≡ none
    → Unique (es ++ (k, v) ∷ [])
Unique-append k v [] u h = (refl, tt)
Unique-append k v ((j, w) ∷ es) u h = (
  ground (arith, lookup-append j es ((k, v) ∷ []), str_eq_iff j k, str_eq_iff k j),
  Unique-append k v es u.1 (ground arith),
)

pub Unique-erase : (k : Bytes) (es : Entries) → Unique es → Unique (erase k es)
Unique-erase k [] u = tt
Unique-erase k ((j, w) ∷ es) u =
    ground (arith, lookup-erase k j es, str_eq_iff j k, str_eq_iff k j, Unique-erase k es)

pub Among-lookup : (k : Bytes) (v : Ptr) (es : Entries) → lookup k es ≡ some v → Among k v es
Among-lookup k v [] h = cc
Among-lookup k v ((j, w) ∷ es) h = ground (arith, Among-lookup k v es, str_eq_iff j k)

pub lookup-Among :
    (k : Bytes) (v : Ptr) (es : Entries) → Unique es → Among k v es → lookup k es ≡ some v
lookup-Among k v [] u a = absurd a
lookup-Among k v ((j, w) ∷ es) u (inl (e, e')) = ground (arith, str_eq_iff j k)
lookup-Among k v ((j, w) ∷ es) u (inr a) = ground (arith, lookup-Among k v es u.1 a, str_eq_iff j k)

pub length-erase :
    (k : Bytes) (v : Ptr) (es : Entries)
    → lookup k es ≡ some v
    → suc (length (erase k es)) ≡ length es
length-erase k v [] h = cc
length-erase k v ((j, w) ∷ es) h = ground (arith, length-erase k v es)
