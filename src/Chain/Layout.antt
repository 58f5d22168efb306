-- ===== src/Chain/Layout.antt =====
-- The layout of the calldata: the task's id stands after the four bytes of the selector.
use open_mamba.Base.{
  ℕ, zero, suc, ◌+◌, ◌*◌, ◌/◌, ◌%◌, ◌^◌, ◌<◌, ◌≡◌, refl, sym, ap, ◌∙◌, List, [], ◌∷◌, length, take,
  arith,
}
use mathlib.Core.List.{drop}
use native.Mathlib.Nat.{
  div-add-mod', add-mul, mul_assoc, div-div-eq-div-mul, pow-suc, pow-succ', div-eq_of_lt,
}
use open_mamba.Types.{BillingEvent}
use open_mamba.Platform.{Platform}
use open_mamba.Chain.{be_bytes, encode_calldata}

-- The number that bytes stand for, the highest first.
abbrev pub be_value : List ℕ → ℕ
be_value [] = 0
be_value (b ∷ bs) = b * 256 ^ length bs + be_value bs

length-be_bytes : (n x : ℕ) → length (be_bytes n x) ≡ n
unfolding be_bytes
length-be_bytes zero x = refl
length-be_bytes (suc n) x = ap suc (length-be_bytes n x)

scaled : (q m : ℕ) → q / 256 * (256 * m) + q % 256 * m ≡ q * m
scaled q m =
    ap (λ a. a + q % 256 * m) (sym (mul_assoc (q / 256) 256 m))
    ∙ sym (add-mul (q / 256 * 256) (q % 256) m)
    ∙ ap (λ a. a * m) (div-add-mod' q 256)

be_value-be_bytes : (n x : ℕ) → be_value (be_bytes n x) + x / 256 ^ n * 256 ^ n ≡ x
unfolding be_bytes
be_value-be_bytes zero x = omega arith
be_value-be_bytes (suc n) x =
    let m = 256 ^ n in
    let v = be_value (be_bytes n x) in
    rw (length-be_bytes n x) (
      ap (λ a. (x / m % 256 * m + v) + a)
        (ap (λ k. x / 256 ^ suc n * k) (pow-succ' 256 n)
          ∙ ap (λ k. k * (256 * m))
              (ap (λ k. x / k) (pow-suc 256 n) ∙ sym (div-div-eq-div-mul x m 256)))
      ∙ omega (arith, scaled (x / m) m, be_value-be_bytes n x))

be_value_lem : (x : ℕ) → x < 2 ^ 128 → be_value (be_bytes 16 x) ≡ x
be_value_lem x h = fits (be_value (be_bytes 16 x)) (div-eq_of_lt h) (be_value-be_bytes 16 x)
  where
    fits : (v : ℕ) → x / 2 ^ 128 ≡ 0 → v + x / 256 ^ 16 * 256 ^ 16 ≡ x → v ≡ x
    fits v none_above whole = omega (arith, none_above, whole)

-- The id in a preview of the calldata: bytes 4 to 19.
abbrev pub task_id_of : List ℕ → ℕ
task_id_of bytes = be_value (take 16 (drop 4 bytes))

-- For a task id of 128 bits, the preview that is stored as the transaction, the first 32 bytes of the
-- calldata, has the id of the task in it, whatever the hash of the payload is: the bytes 4 to 19 are
-- the id.
pub encode_calldata-task_id :
    (p : Platform) (e : BillingEvent)
    → e.task_id < 2 ^ 128
    → task_id_of (take 32 (encode_calldata p e)) ≡ e.task_id
unfolding encode_calldata be_bytes
encode_calldata-task_id p e fits = be_value_lem e.task_id fits
