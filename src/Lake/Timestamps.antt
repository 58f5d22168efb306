-- ===== src/Lake/Timestamps.antt =====
-- crates/mamba-lake/src/lib.rs, `triggers_parse_ts`: the times of the lake as DuckDB prints them, made
-- RFC 3339 texts. A text is the list of its code points.
pub mod Zone
use open_mamba.Base.{
  ℕ, ◌-◌, Bool, true, false, not, ◌&&◌, ◌||◌, Option, none, some, List, [], ◌∷◌, ◌++◌, map, eqb,
  ltb, leb, length, any, utf8, utf8_char, if◌then◌else◌,
}
use open_mamba.Types.{DateTime}

abbrev pub Text : Type 0
Text = List ℕ

-- A time, or the text that was read and what it was made into, or a split inside a character.
pub data Parsed : Type 0 where
  parsed : DateTime → Parsed
  bad_timestamp : Text → Text → Parsed
  split_panic : Parsed

-- s.replace(' ', "T")
abbrev pub blank_to_t : ℕ → ℕ
blank_to_t c = if eqb c 32 then 84 else c

abbrev pub same_text : Text → Text → Bool
same_text [] [] = true
same_text [] (d ∷ t) = false
same_text (c ∷ s) [] = false
same_text (c ∷ s) (d ∷ t) = eqb c d && same_text s t

abbrev pub ends_with : Text → Text → Bool
ends_with suffix [] = same_text suffix []
ends_with suffix (c ∷ s) = same_text suffix (c ∷ s) || ends_with suffix s

abbrev with_head : ℕ → Option (Text × Text) → Option (Text × Text)
with_head c none = none
with_head c (some (head, tail)) = some (c ∷ head, tail)

-- `split_at` counts bytes, and panics inside a character.
unfoldable pub split_at : ℕ → Text → Option (Text × Text)
split_at n [] = if eqb n 0 then some ([], []) else none
split_at n (c ∷ s) =
    let rest = split_at (n - length (utf8_char c)) s in
    if eqb n 0
    then some ([], c ∷ s)
    else if ltb n (length (utf8_char c))
    then none
    else with_head c rest

abbrev starts_with_sign : Text → Bool
starts_with_sign [] = false
starts_with_sign (c ∷ s) = eqb c 43 || eqb c 45

-- ":00"
abbrev pub zero_minutes : Text
zero_minutes = 58 ∷ 48 ∷ 48 ∷ []

abbrev pub zoned : Text → Option (Text × Text) → Option Text
zoned normalized none = none
zoned normalized (some (head, tail)) =
    if starts_with_sign tail && not (any (eqb 58) tail)
    then some (head ++ (tail ++ zero_minutes))
    else some normalized

unfoldable pub normalized_of : Text → Option Text
unfolding split_at
normalized_of normalized =
    if ends_with (43 ∷ 48 ∷ 48 ∷ []) normalized || ends_with (45 ∷ 48 ∷ 48 ∷ []) normalized
    then some (normalized ++ zero_minutes)
    else if leb 3 (length (utf8 normalized))
    then zoned normalized (split_at (length (utf8 normalized) - 3) normalized)
    else some normalized

-- `DateTime::parse_from_rfc3339`.
module _ (parse_from_rfc3339 : Text → Option DateTime) where
  abbrev read_again : Text → Option Text → Option DateTime → Parsed
  read_again s none t = split_panic
  read_again s (some normalized) none = bad_timestamp s normalized
  read_again s (some normalized) (some t) = parsed t

  abbrev parse_normalized : Text → Option Text → Parsed
  parse_normalized s none = split_panic
  parse_normalized s (some normalized) =
      read_again s (some normalized) (parse_from_rfc3339 normalized)

  abbrev parse_or : Text → Option DateTime → Parsed
  parse_or s none = parse_normalized s (normalized_of (map blank_to_t s))
  parse_or s (some t) = parsed t

  unfoldable pub triggers_parse_ts : Text → Parsed
  unfolding normalized_of
  triggers_parse_ts s = parse_or s (parse_from_rfc3339 s)
