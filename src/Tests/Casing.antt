-- ===== src/Tests/Casing.antt =====
-- The case mapping of ASCII as a mapping of texts.
use Prim.Native.Nat.{compare, Ordering}
use Prim.Native.Char.{Char, char, code, IsScalar}
use open_mamba.Base.{
  ℕ, ◌<◌, ◌≡◌, refl, ap, sym, ◌∙◌, String, Bool, true, false, List, [], ◌∷◌, ◌++◌, map, ltb, codes,
  arith, ◌⊎◌, inl, inr,
}
use open_mamba.Platform.{ascii_lower, ascii_upper, MapsAscii}

pub small-IsScalar : (n : ℕ) → n < 55296 → IsScalar n
small-IsScalar n h = let below : compare n 55296 ≡ Ordering.lt = ground arith in rw below tt

map-append : (g : ℕ → ℕ) (xs ys : List ℕ) → map g (xs ++ ys) ≡ map g xs ++ map g ys
map-append g [] ys = refl
map-append g (x ∷ xs) ys = ap (λ t. g x ∷ t) (map-append g xs ys)

pub lt_of_ltb : (n m : ℕ) → ltb n m ≡ true → n < m
lt_of_ltb n m h = ground arith

-- `Bool-cases`, to compute with.
abbrev pub either : (b : Bool) → (b ≡ true) ⊎ (b ≡ false)
either true = inl refl
either false = inr refl

-- A mapping of code points that leaves those past ASCII alone, over a text.
module _ (g : ℕ → ℕ) (rest : (n : ℕ) → (ltb (g n) 55296) ≡ false → g n ≡ n) where
  abbrev pub map_char : Char → Char
  map_char c = elim (either (ltb (g (code c)) 55296)) [
    | inl e ↦ char (g (code c)) (small-IsScalar (g (code c)) (lt_of_ltb (g (code c)) 55296 e))
    | inr e ↦ c
  ]

  abbrev pub map_text : String → String
  map_text String.[] = String.[]
  map_text (String.◌∷◌ c s) = String.◌∷◌ (map_char c) (map_text s)

  code-map_char : (c : Char) → code (map_char c) ≡ g (code c)
  code-map_char c =
      elim (either (ltb (g (code c)) 55296))
        as (λ b.
          code (elim b [
            | inl e ↦
                char (g (code c)) (small-IsScalar (g (code c)) (lt_of_ltb (g (code c)) 55296 e))
            | inr e ↦ c
          ])
          ≡ g (code c)) [ inl e ↦ refl | inr e ↦ sym (rest (code c) e) ]

  codes-map_text : (s : String) → codes (map_text s) ≡ map g (codes s)
  codes-map_text String.[] = refl
  codes-map_text (String.◌∷◌ c s) =
      rw (code-map_char c) (ap (λ t. g (code c) ∷ t) (codes-map_text s))

  pub map_text-MapsAscii : MapsAscii map_text g
  map_text-MapsAscii s before word after e ascii = (
    map g before,
    map g after,
    codes-map_text s
        ∙ (ap (map g) e
            ∙ (map-append g before (word ++ after)
                ∙ ap (λ t. map g before ++ t) (map-append g word after))),
  )

pub lower-rest : (n : ℕ) → ltb (ascii_lower n) 55296 ≡ false → ascii_lower n ≡ n
lower-rest n h = ground arith

pub upper-rest : (n : ℕ) → ltb (ascii_upper n) 55296 ≡ false → ascii_upper n ≡ n
upper-rest n h = ground arith
