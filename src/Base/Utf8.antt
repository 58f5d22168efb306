-- ===== src/Base/Utf8.antt =====
-- UTF-8: the bytes of a text are bytes, and no two texts have the same.
use Prim.Native.Char.{char, code, IsLt, IsScalar}
use Prim.Native.Nat.{ℕ, Ordering, compare, ◌+◌, ◌/◌, ◌%◌, ◌<◌}
use Prim.Native.String.{String}
use mathlib.Core.Path.{◌≡◌, refl, sym}
use mathlib.Core.Logic.{◌⊎◌, inl, inr}
use mathlib.Core.Bool.{true, false}
use mathlib.Core.List.{List, [], ◌∷◌, ◌++◌}
use native.Mathlib.Omega.{arith, compare-lt}
use text.Mathlib.TextEquality.{Char-path}
use open_mamba.Base.Tests.{Bool-cases, ltb}
use open_mamba.Base.Lists.{All}
use open_mamba.Base.Sort.{All-append}
use open_mamba.Base.Strings.{codes, utf8, utf8_char}

-- The test of a scalar value, on the answers of its three comparisons.
abbrev Both : Ordering → Ordering → Type 0
Both Ordering.lt o = IsLt o
Both Ordering.eq _ = ⊥
Both Ordering.gt _ = ⊥

abbrev Scalar : Ordering → Ordering → Ordering → Type 0
Scalar Ordering.lt _ _ = Unit
Scalar Ordering.eq o p = Both o p
Scalar Ordering.gt o p = Both o p

IsLt-lt : (o : Ordering) → IsLt o → o ≡ Ordering.lt
IsLt-lt Ordering.lt h = refl
IsLt-lt Ordering.eq h = absurd h
IsLt-lt Ordering.gt h = absurd h

Both-lt : (p q : Ordering) → Both p q → q ≡ Ordering.lt
Both-lt Ordering.lt q h = IsLt-lt q h
Both-lt Ordering.eq q h = absurd h
Both-lt Ordering.gt q h = absurd h

Scalar-cases : (o p q : Ordering) → Scalar o p q → (o ≡ Ordering.lt) ⊎ (q ≡ Ordering.lt)
Scalar-cases Ordering.lt p q h = inl refl
Scalar-cases Ordering.eq p q h = inr (Both-lt p q h)
Scalar-cases Ordering.gt p q h = inr (Both-lt p q h)

IsScalar-below : (n : ℕ) → IsScalar n → n < 1_114_112
IsScalar-below n h =
    elim (Scalar-cases (compare n 55296) (compare 57343 n) (compare n 1_114_112) h) [
      | inl low ↦ let k = compare-lt n 55296 low in omega arith
      | inr high ↦ compare-lt n 1_114_112 high
    ]

abbrev pub IsBytes : List ℕ → Type 0
IsBytes = All (λ a. a < 256)

-- The four forms of a character.
data Form (c : ℕ) : Type 0 where
  one : c < 0x80 → utf8_char c ≡ c ∷ [] → Form c
  two : 0x80 < c + 1 → c < 0x800 → utf8_char c ≡ (192 + c / 64) ∷ (128 + c % 64) ∷ [] → Form c
  three :
      0x800 < c + 1
      → c < 0x10000
      → utf8_char c ≡ (224 + c / 4096) ∷ (128 + c / 64 % 64) ∷ (128 + c % 64) ∷ []
      → Form c
  four :
      0x10000 < c + 1
      → utf8_char c
        ≡ (240 + c / 262144) ∷ (128 + c / 4096 % 64) ∷ (128 + c / 64 % 64) ∷ (128 + c % 64) ∷ []
      → Form c

test_cases : (a b : ℕ) → ((ltb a b ≡ true) × (a < b)) ⊎ ((ltb a b ≡ false) × (b < a + 1))
test_cases a b = elim (Bool-cases (ltb a b)) [
  | inl h ↦ inl (h, ground arith)
  | inr h ↦ inr (h, ground arith)
]

form : (c : ℕ) → Form c
form c = elim (test_cases c 0x80) [
  | inl (h, l) ↦ one l (rw h refl)
  | inr (h, l) ↦ elim (test_cases c 0x800) [
    | inl (h', l') ↦ two l l' (rw (h, h') refl)
    | inr (h', l') ↦ elim (test_cases c 0x10000) [
      | inl (h'', l'') ↦ three l' l'' (rw (h, h', h'') refl)
      | inr (h'', l'') ↦ four l'' (rw (h, h', h'') refl)
    ]
  ]
]

utf8_char-IsBytes : (c : ℕ) → c < 1_114_112 → IsBytes (utf8_char c)
utf8_char-IsBytes c below = elim (form c) [
  | one l h ↦ rw h (omega arith, tt)
  | two l m h ↦ rw h (omega arith, (omega arith, tt))
  | three l m h ↦ rw h (omega arith, (omega arith, (omega arith, tt)))
  | four l h ↦ rw h (omega arith, (omega arith, (omega arith, (omega arith, tt))))
]

-- The first byte tells how many follow, and they give the character.
Form-inj :
    (c d : ℕ) (s t : List ℕ)
    → Form c
    → Form d
    → utf8_char c ++ s ≡ utf8_char d ++ t
    → (c ≡ d) × (s ≡ t)
Form-inj c d s t (one l h) (one l' h') e = grind arith
Form-inj c d s t (one l h) (two l' m' h') e = grind arith
Form-inj c d s t (one l h) (three l' m' h') e = grind arith
Form-inj c d s t (one l h) (four l' h') e = grind arith
Form-inj c d s t (two l m h) (one l' h') e = grind arith
Form-inj c d s t (two l m h) (two l' m' h') e = grind arith
Form-inj c d s t (two l m h) (three l' m' h') e = grind arith
Form-inj c d s t (two l m h) (four l' h') e = grind arith
Form-inj c d s t (three l m h) (one l' h') e = grind arith
Form-inj c d s t (three l m h) (two l' m' h') e = grind arith
Form-inj c d s t (three l m h) (three l' m' h') e = grind arith
Form-inj c d s t (three l m h) (four l' h') e = grind arith
Form-inj c d s t (four l h) (one l' h') e = grind arith
Form-inj c d s t (four l h) (two l' m' h') e = grind arith
Form-inj c d s t (four l h) (three l' m' h') e = grind arith
Form-inj c d s t (four l h) (four l' h') e = grind arith

utf8_char-nonempty : (c : ℕ) (s : List ℕ) → [] ≡ utf8_char c ++ s → ⊥
utf8_char-nonempty c s e = elim (form c) [
  | one l h ↦ grind arith
  | two l m h ↦ grind arith
  | three l m h ↦ grind arith
  | four l h ↦ grind arith
]

utf8-inj : (s t : List ℕ) → utf8 s ≡ utf8 t → s ≡ t
utf8-inj [] [] e = refl
utf8-inj [] (d ∷ t) e = absurd (utf8_char-nonempty d (utf8 t) e)
utf8-inj (c ∷ s) [] e = absurd (utf8_char-nonempty c (utf8 s) (sym e))
utf8-inj (c ∷ s) (d ∷ t) e =
    let (head, tail) = Form-inj c d (utf8 s) (utf8 t) (form c) (form d) e in
    rw (head, utf8-inj s t tail) refl

codes-inj : (a b : String) → codes a ≡ codes b → a ≡ b
codes-inj String.[] String.[] e = refl
codes-inj String.[] (String.◌∷◌ d t) e = absurd (cc)
codes-inj (String.◌∷◌ c s) String.[] e = absurd (cc)
codes-inj (String.◌∷◌ c s) (String.◌∷◌ d t) e =
    let same : code c ≡ code d = cc in
    let rest : codes s ≡ codes t = cc in rw (Char-path c d same, codes-inj s t rest) refl

pub utf8-codes-IsBytes : (a : String) → IsBytes (utf8 (codes a))
utf8-codes-IsBytes String.[] = tt
utf8-codes-IsBytes (String.◌∷◌ (char n p) s) =
    All-append (λ a. a < 256) (utf8_char n) (utf8 (codes s))
      (utf8_char-IsBytes n (IsScalar-below n p)) (utf8-codes-IsBytes s)

-- Two texts with the same bytes are equal.
pub utf8-codes-inj : (a b : String) → utf8 (codes a) ≡ utf8 (codes b) → a ≡ b
utf8-codes-inj a b e = codes-inj a b (utf8-inj (codes a) (codes b) e)
