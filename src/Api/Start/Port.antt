-- ===== src/Api/Start/Port.antt =====
-- The port that PORT asks for.
use open_mamba.Base.{
  ℕ, ◌+◌, ◌*◌, ◌<◌, ◌≤◌, ◌≡◌, sym, String, false, none, some, List, [], ◌∷◌, map, All, ltb, eqb,
  codes, if◌then◌else◌, Bool-cases, inl, inr, arith,
}
use open_mamba.Api.Start.{push, parse_digits, parse_u16, checked, port_of}

-- The number that the digits stand for, after `acc`.
abbrev pub value_from : ℕ → List ℕ → ℕ
value_from acc [] = acc
value_from acc (d ∷ ds) = value_from (acc * 10 + d) ds

value_from-le : (acc : ℕ) (ds : List ℕ) → acc ≤ value_from acc ds
value_from-le acc [] = omega arith
value_from-le acc (d ∷ ds) = omega (arith, value_from-le (acc * 10 + d) ds)

too_large : (acc : ℕ) (ds : List ℕ) → 65536 ≤ acc → checked (value_from acc ds) ≡ none
too_large acc ds h = ground (arith, value_from-le acc ds, h)

push_lem : (acc d : ℕ) → d < 10 → push acc (d + 48) ≡ checked (acc * 10 + d)
unfolding push
push_lem acc d h = ground (arith, h)

parse_digits-value_from :
    (acc : ℕ) (ds : List ℕ)
    → acc < 65536
    → All (λ d. d < 10) ds
    → parse_digits acc (map (λ d. d + 48) ds) ≡ checked (value_from acc ds)
unfolding parse_digits
parse_digits-value_from acc [] small digits = ground (arith, small)
parse_digits-value_from acc (d ∷ ds) small digits = elim (Bool-cases (ltb (acc * 10 + d) 65536)) [
  | inl h ↦
      rw (parse_digits, push_lem acc d digits.0, h)
        (parse_digits-value_from (acc * 10 + d) ds (ground (arith, h)) digits.1)
  | inr h ↦
      rw (parse_digits, push_lem acc d digits.0, h)
        (sym (too_large (acc * 10 + d) ds (ground (arith, h))))
]

-- A PORT of decimal digits is the port if it stands for a number below 65536; else the port is 1337.
port_of-value_from :
    (s : String) (d : ℕ) (ds : List ℕ)
    → All (λ d. d < 10) (d ∷ ds)
    → codes s ≡ map (λ d. d + 48) (d ∷ ds)
    → port_of (some s) ≡ (if ltb (value_from 0 (d ∷ ds)) 65536 then value_from 0 (d ∷ ds) else 1337)
unfolding port_of parse_u16
port_of-value_from s d ds digits is =
    let no_plus : eqb (d + 48) 43 ≡ false = ground arith in
    rw (is, no_plus, parse_digits-value_from 0 (d ∷ ds) (omega arith) digits) (ground arith)
