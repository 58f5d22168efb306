-- ===== src/Lake/Timestamps/Zone.antt =====
-- A time that DuckDB prints with the hours of its zone is read as the RFC 3339 text.
use open_mamba.Base.{
  ℕ, suc, ◌-◌, ◌+◌, ◌≡◌, refl, sym, ap, ◌∙◌, true, false, ◌||◌, Option, none, some, [], ◌∷◌, ◌++◌,
  map, eqb, ltb, leb, length, length-append, All, All-append, utf8, suc_not_zero, Bool-cases, inl,
  inr, arith,
}
use mathlib.Core.List.{append_assoc}
use open_mamba.Types.{DateTime}
use open_mamba.Lake.Timestamps.{
  Text, parsed, blank_to_t, ends_with, split_at, zero_minutes, normalized_of, triggers_parse_ts,
}

-- Neither outside ASCII nor a blank.
abbrev pub IsPlain : ℕ → Type 0
IsPlain c = (ltb c 128 ≡ true) × (eqb c 32 ≡ false)

abbrev pub IsAscii : ℕ → Type 0
IsAscii c = ltb c 128 ≡ true

plain_kept : (s : Text) → All IsPlain s → map blank_to_t s ≡ s
plain_kept [] h = refl
plain_kept (c ∷ s) h = rw (h.0.1, plain_kept s h.1) refl

plain-IsAscii : (s : Text) → All IsPlain s → All IsAscii s
plain-IsAscii [] h = tt
plain-IsAscii (c ∷ s) h = (h.0.0, plain-IsAscii s h.1)

length-utf8 : (s : Text) → All IsAscii s → length (utf8 s) ≡ length s
length-utf8 [] h = refl
length-utf8 (c ∷ s) h = rw h.0 (ap suc (length-utf8 s h.1))

suc_not_below_one : (n : ℕ) → ltb (suc n) 1 ≡ false
suc_not_below_one n = ground arith

suc_less_one : (n : ℕ) → suc n - 1 ≡ n
suc_less_one n = omega arith

split_at-append : (s t : Text) → All IsAscii s → split_at (length s) (s ++ t) ≡ some (s, t)
unfolding split_at
split_at-append [] [] h = refl
split_at-append [] (d ∷ t) h = refl
split_at-append (c ∷ s) t h =
    rw
      (
        h.0,
        suc_not_zero (length s),
        suc_not_below_one (length s),
        suc_less_one (length s),
        split_at-append s t h.1,
      )
      refl

-- +HH or -HH.
abbrev pub zone : ℕ → ℕ → ℕ → Text
zone sign a b = sign ∷ a ∷ b ∷ []

-- A sign, and two characters that are neither blank nor a colon.
abbrev pub IsZone : ℕ → ℕ → ℕ → Type 0
IsZone sign a b =
    ((eqb sign 43 || eqb sign 45) ≡ true)
    × All IsPlain (sign ∷ a ∷ b ∷ [])
    × (eqb 58 a ≡ false)
    × (eqb 58 b ≡ false)

sign_not_colon : (sign : ℕ) → (eqb sign 43 || eqb sign 45) ≡ true → eqb 58 sign ≡ false
sign_not_colon sign h = ground (arith, h)

less_three : (n : ℕ) → n + 3 - 3 ≡ n
less_three n = omega arith

three_at_least : (n : ℕ) → leb 3 (n + 3) ≡ true
three_at_least n = ground arith

module _ (s : Text) (sign a b : ℕ) (ascii : All IsAscii s) (is_zone : IsZone sign a b) where
  length-zone : length (utf8 (s ++ zone sign a b)) ≡ length s + 3
  length-zone =
      length-utf8 (s ++ zone sign a b)
        (All-append IsAscii s (zone sign a b) ascii (plain-IsAscii (zone sign a b) is_zone.1))
      ∙ length-append s (zone sign a b)

  normalized-zone : normalized_of (s ++ zone sign a b) ≡ some (s ++ (zone sign a b ++ zero_minutes))
  unfolding normalized_of
  normalized-zone =
      elim (Bool-cases (
        ends_with (43 ∷ 48 ∷ 48 ∷ []) (s ++ zone sign a b)
        || ends_with (45 ∷ 48 ∷ 48 ∷ []) (s ++ zone sign a b))) [
          | inl e ↦ rw (e, append_assoc s (zone sign a b) zero_minutes) refl
          | inr e ↦
              rw
                (
                  e,
                  length-zone,
                  three_at_least (length s),
                  less_three (length s),
                  split_at-append s (zone sign a b) ascii,
                )
                (rw (is_zone.0, sign_not_colon sign is_zone.0, is_zone.2, is_zone.3) refl)
        ]

plain_append :
    (date rest : Text)
    → All IsPlain date
    → map blank_to_t (date ++ rest) ≡ date ++ map blank_to_t rest
plain_append [] rest h = refl
plain_append (c ∷ date) rest h = rw (h.0.1, plain_append date rest h.1) refl

-- As DuckDB prints a time.
abbrev pub printed : Text → Text → Text → Text
printed date time zone = date ++ (32 ∷ (time ++ zone))

-- As RFC 3339 has it.
abbrev pub rfc3339 : Text → Text → Text → Text
rfc3339 date time zone = date ++ (84 ∷ (time ++ (zone ++ zero_minutes)))

module _ (parse_from_rfc3339 : Text → Option DateTime) (date time : Text) (sign a b : ℕ)
    (plain_date : All IsPlain date) (plain_time : All IsPlain time)
    (is_zone : IsZone sign a b) where
  normalized-printed :
      normalized_of (map blank_to_t (printed date time (zone sign a b)))
      ≡ some (rfc3339 date time (zone sign a b))
  normalized-printed =
      let ascii =
        All-append IsAscii date (84 ∷ time) (plain-IsAscii date plain_date)
          (refl, plain-IsAscii time plain_time) in
      ap normalized_of (
        plain_append date (32 ∷ (time ++ zone sign a b)) plain_date
        ∙ ap (λ r. date ++ (84 ∷ r))
            (plain_append time (zone sign a b) plain_time
              ∙ ap (λ r. time ++ r) (plain_kept (zone sign a b) is_zone.1))
        ∙ sym (append_assoc date (84 ∷ time) (zone sign a b)))
      ∙ normalized-zone (date ++ (84 ∷ time)) sign a b ascii is_zone
      ∙ ap some (append_assoc date (84 ∷ time) (zone sign a b ++ zero_minutes))

  -- Let a text be a date, a blank, a time and a sign with two characters for the hours of a zone, all
  -- of ASCII, without another blank and the hours without a colon. If the RFC 3339 parser refuses it,
  -- and reads the same text with a T and with `:00` at the end as a time, then `triggers_parse_ts`
  -- reads the first text as that time.
  pub triggers_parse_ts-zone :
      (t : DateTime)
      → parse_from_rfc3339 (printed date time (zone sign a b)) ≡ none
      → parse_from_rfc3339 (rfc3339 date time (zone sign a b)) ≡ some t
      → triggers_parse_ts parse_from_rfc3339 (printed date time (zone sign a b)) ≡ parsed t
  unfolding triggers_parse_ts
  triggers_parse_ts-zone t strict reads = rw (strict, normalized-printed, reads) refl
