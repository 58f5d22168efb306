-- ===== src/Api/Auth/Compare.antt =====
-- The comparison of keys.
use Prim.Native.Nat.{bit_or, bit_xor}
use open_mamba.Base.{
  ℕ, zero, suc, ◌<◌, ◌≡◌, ◌↔◌, refl, sym, ap, ◌∙◌, Bool, true, false, ◌&&◌, List, [], ◌∷◌, eqb, ltb,
  IsBytes, length, arith, eq_of_eqb, Bool-cases, inl, inr,
}
use open_mamba.Api.Auth.{diff_from, ct_eq_bytes}

-- A test that holds of each of the first `n` numbers; the tables below try all pairs of bytes.
every : (ℕ → Bool) → ℕ → Bool
every p zero = true
every p (suc n) = every p n && p n

every-at : (p : ℕ → Bool) (n x : ℕ) → x < n → every p n ≡ true → p x ≡ true
unfolding every
every-at p zero x below h = absurd (omega arith)
every-at p (suc n) x below h = ground (arith, every-at p n x)

pairs : (ℕ → ℕ → Bool) → Bool
unfolding every
pairs p = every (λ a. every (p a) 256) 256

pairs-at : (p : ℕ → ℕ → Bool) (a b : ℕ) → pairs p ≡ true → a < 256 → b < 256 → p a b ≡ true
unfolding pairs
pairs-at p a b h ha hb = every-at (p a) 256 b hb (every-at (λ x. every (p x) 256) 256 a ha h)

same_test : Bool → Bool → Bool
same_test true b = b
same_test false true = false
same_test false false = true

xor_table : pairs (λ a b. same_test (eqb (bit_xor a b) 0) (eqb a b)) ≡ true
unfolding pairs same_test
xor_table = refl

or_table : pairs (λ a b. same_test (eqb (bit_or a b) 0) (eqb a 0 && eqb b 0)) ≡ true
unfolding pairs same_test
or_table = refl

below_table : pairs (λ a b. ltb (bit_or a b) 256 && ltb (bit_xor a b) 256) ≡ true
unfolding pairs
below_table = refl

same_test_eq : (a b : Bool) → same_test a b ≡ true → a ≡ b
unfolding same_test
same_test_eq true b h = sym h
same_test_eq false true h = h
same_test_eq false false h = refl

-- One round of the loop: the accumulator stays a byte, and is zero exactly when it was and the two
-- bytes are equal.
round :
    (d a b : ℕ)
    → d < 256
    → a < 256
    → b < 256
    → (bit_or d (bit_xor a b) < 256) × (eqb (bit_or d (bit_xor a b)) 0 ≡ eqb d 0 && eqb a b)
round d a b hd ha hb =
    let x = bit_xor a b in
    let row = pairs-at _ a b below_table ha hb in
    let small : x < 256 = ground (arith, row) in
    let out = pairs-at _ d x below_table hd small in
    let either = pairs-at _ d x or_table hd small in
    let same = pairs-at _ a b xor_table ha hb in
    (ground (arith, out), same_test_eq _ _ either ∙ ap (λ z. eqb d 0 && z) (same_test_eq _ _ same))

diff_from_zero :
    (d : ℕ) (a b : List ℕ)
    → d < 256
    → IsBytes a
    → IsBytes b
    → length a ≡ length b
    → (eqb (diff_from d a b) 0 ≡ true) ↔ ((d ≡ 0) × (a ≡ b))
unfolding diff_from
diff_from_zero d [] [] hd ha hb e = (λ h. (eq_of_eqb d 0 h, refl), λ h. rw h.0 refl)
diff_from_zero d [] (y ∷ b) hd ha hb e = absurd (omega arith)
diff_from_zero d (x ∷ a) [] hd ha hb e = absurd (omega arith)
diff_from_zero d (x ∷ a) (y ∷ b) hd ha hb e =
    let r = round d x y hd ha.0 hb.0 in
    let ih = diff_from_zero (bit_or d (bit_xor x y)) a b r.0 ha.1 hb.1 (omega arith) in
    (
      λ h.
          let z = ih.0 h in
          let both : (d ≡ 0) × (x ≡ y) = ground (arith, r.1, z.0) in
          (both.0, ground (arith, both.1, z.1)),
      λ h. ih.1 (ground (arith, r.1), ground arith),
    )

-- Over two lists of bytes, each below 256, `ct_eq_bytes` answers true exactly if they are equal.
pub ct_eq_bytes_iff : (a b : List ℕ) → IsBytes a → IsBytes b → (ct_eq_bytes a b ≡ true) ↔ (a ≡ b)
unfolding ct_eq_bytes
ct_eq_bytes_iff a b ha hb = elim (Bool-cases (eqb (length a) (length b))) [
  | inl e ↦
      let z = diff_from_zero 0 a b (omega arith) ha hb (eq_of_eqb (length a) (length b) e) in
      rw e (λ h. (z.0 h).1, λ h. z.1 (refl, h))
  | inr e ↦ rw e (λ h. cc, λ h. ground (arith, ap length h))
]
