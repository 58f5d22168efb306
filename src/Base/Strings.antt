-- ===== src/Base/Strings.antt =====
-- What the source asks of a `str`: whether one text occurs in another, a byte prefix, and prefixes.
use Prim.Native.Char.{code}
use Prim.Native.Nat.{ℕ, ◌+◌, ◌/◌, ◌%◌}
use Prim.Native.String.{String}
use mathlib.Core.Path.{◌≡◌, refl}
use mathlib.Core.Bool.{Bool, true, false, ◌&&◌, ◌||◌}
use mathlib.Core.List.{List, [], ◌∷◌, ◌++◌}
use native.Mathlib.Omega.{arith}
use open_mamba.Base.Tests.{eqb, ltb, eqb_refl, if◌then◌else◌}

-- The code points of a text.
abbrev pub codes : String → List ℕ
codes String.[] = []
codes (String.◌∷◌ c s) = code c ∷ codes s

-- The bytes of a character, and of a text: `as_bytes`.
abbrev pub utf8_char : ℕ → List ℕ
utf8_char c =
    if ltb c 0x80
    then c ∷ []
    else if ltb c 0x800
    then (192 + c / 64) ∷ (128 + c % 64) ∷ []
    else if ltb c 0x10000
    then (224 + c / 4096) ∷ (128 + c / 64 % 64) ∷ (128 + c % 64) ∷ []
    else (240 + c / 262144) ∷ (128 + c / 4096 % 64) ∷ (128 + c / 64 % 64) ∷ (128 + c % 64) ∷ []

abbrev pub utf8 : List ℕ → List ℕ
utf8 [] = []
utf8 (c ∷ s) = utf8_char c ++ utf8 s

unfoldable pub is_prefix : List ℕ → List ℕ → Bool
is_prefix [] t = true
is_prefix (x ∷ s) [] = false
is_prefix (x ∷ s) (y ∷ t) = eqb x y && is_prefix s t

unfoldable pub occurs : List ℕ → List ℕ → Bool
unfolding is_prefix
occurs s [] = is_prefix s []
occurs s (y ∷ t) = is_prefix s (y ∷ t) || occurs s t

-- `text.contains(pattern)`.
unfoldable pub contains : String → String → Bool
unfolding occurs
contains text pattern = occurs (codes pattern) (codes text)

is_prefix-append : (s t : List ℕ) → is_prefix s (s ++ t) ≡ true
unfolding is_prefix
is_prefix-append [] t = refl
is_prefix-append (x ∷ s) t = ground (arith, eqb_refl x, is_prefix-append s t)

occurs_of_prefix : (s t : List ℕ) → is_prefix s t ≡ true → occurs s t ≡ true
unfolding occurs
occurs_of_prefix s [] h = h
occurs_of_prefix s (y ∷ t) h = ground arith

-- A text that stands anywhere inside another one is found there.
pub occurs-append : (before s after : List ℕ) → occurs s (before ++ (s ++ after)) ≡ true
unfolding occurs
occurs-append [] s after = occurs_of_prefix s (s ++ after) (is_prefix-append s after)
occurs-append (x ∷ before) s after = ground (arith, occurs-append before s after)
