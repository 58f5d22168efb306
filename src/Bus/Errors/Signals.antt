-- ===== src/Bus/Errors/Signals.antt =====
-- How the signals in an error message decide.
use open_mamba.Base.{
  ℕ, ◌≡◌, String, Bool, true, false, List, [], ◌∷◌, ◌++◌, map, any, contains, codes, occurs-append,
  get_elem?, some, zero, suc, arith,
}
use open_mamba.Platform.{Platform, ascii_lower, MapsAscii, IsAscii}
use open_mamba.Bus.Errors.{permanent_signals, is_transient_error}

-- A word stands in a text in some casing of its ASCII letters.
abbrev pub StandsIn : (ℕ → ℕ) → List ℕ → String → Type 0
StandsIn g word text =
    (before : List ℕ) × (cased : List ℕ) × (after : List ℕ) × (codes text
      ≡ before ++ (cased ++ after))
    × IsAscii cased
    × (map g cased ≡ word)

-- The mapped text contains the word.
pub contains-StandsIn :
    (f : String → String) (g : ℕ → ℕ) (text word : String)
    → MapsAscii f g
    → StandsIn g (codes word) text
    → contains (f text) word ≡ true
unfolding contains
contains-StandsIn f g text word maps (before, cased, after, e, ascii, same) =
    let (before', after', e') = maps text before cased after e ascii in
    rw (e', same) (occurs-append before' (codes word) after')

any-get_elem? :
    (p : String → Bool) (xs : List String) (i : ℕ) (s : String)
    → get_elem? xs i ≡ some s
    → p s ≡ true
    → any p xs ≡ true
any-get_elem? p [] i s e h = absurd cc
any-get_elem? p (x ∷ xs) zero s e h = ground (arith, e, h)
any-get_elem? p (x ∷ xs) (suc i) s e h = ground (arith, any-get_elem? p xs i s e h)

-- A message with one of the permanent signals in it, in any casing, is not transient, whatever
-- transient signals it has too.
is_transient_error-permanent :
    (p : Platform) (msg : String) (i : ℕ) (signal : String)
    → MapsAscii p.to_lowercase ascii_lower
    → get_elem? permanent_signals i ≡ some signal
    → StandsIn ascii_lower (codes signal) msg
    → is_transient_error p msg ≡ false
unfolding is_transient_error
is_transient_error-permanent p msg i signal maps listed stands = rw (
    any-get_elem? (contains (p.to_lowercase msg)) permanent_signals i signal listed
      (contains-StandsIn p.to_lowercase ascii_lower msg signal maps stands))
