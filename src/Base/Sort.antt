-- ===== src/Base/Sort.antt =====
-- Laws of the list operations that SQL statements become: what `sort_by`, `select`, `reject` and
-- `update` keep.
use Prim.Native.Nat.{ℕ, zero, suc}
use mathlib.Core.Path.{◌≡◌, refl, ap}
use mathlib.Core.Option.{none, some}
use mathlib.Core.Bool.{Bool, true, false}
use mathlib.Core.List.{List, [], ◌∷◌, ◌++◌, map, Perm}
use mathlib.Core.List.Perm
use mathlib.Core.Logic.{inl, inr}
use native.Mathlib.Omega.{arith}
use open_mamba.Base.Tests.{Bool-cases}
use open_mamba.Base.Lists.{select, reject, update, insert_by, sort_by, take, All, any, first}

module _ {ℓ} {A : Type ℓ} where
  -- Neighbours in the list stand in the relation.
  abbrev pub IsOrdered {κ} : (A → A → Type κ) → List A → Type κ
  IsOrdered R [] = Unit
  IsOrdered R (x ∷ []) = Unit
  IsOrdered R (x ∷ y ∷ ys) = R x y × IsOrdered R (y ∷ ys)

  insert_by-perm : (le : A → A → Bool) (x : A) (ys : List A) → Perm (insert_by le x ys) (x ∷ ys)
  insert_by-perm le x [] = Perm.refl (x ∷ [])
  insert_by-perm le x (y ∷ ys) = elim (Bool-cases (le x y)) [
    | inl e ↦ rw e (Perm.refl (x ∷ y ∷ ys))
    | inr e ↦ rw e (Perm.trans (Perm.cons y (insert_by-perm le x ys)) (Perm.swap x y ys))
  ]

  pub sort_by-perm : (le : A → A → Bool) (xs : List A) → Perm (sort_by le xs) xs
  sort_by-perm le [] = Perm.refl []
  sort_by-perm le (x ∷ xs) =
      Perm.trans (insert_by-perm le x (sort_by le xs)) (Perm.cons x (sort_by-perm le xs))

  -- What a DELETE leaves, and what an UPDATE does to the row that a SELECT finds.
  pub any-reject : (p : A → Bool) (xs : List A) → any p (reject p xs) ≡ false
  any-reject p [] = refl
  any-reject p (x ∷ xs) = elim (Bool-cases (p x)) [
    | inl e ↦ rw e (any-reject p xs)
    | inr e ↦ rw (e, e) (any-reject p xs)
  ]

  -- Two UPDATEs of the same rows are one.
  pub update-update :
      (p : A → Bool) (f g : A → A) (xs : List A)
      → ((x : A) → p (f x) ≡ p x)
      → update p g (update p f xs) ≡ update p (λ x. g (f x)) xs
  update-update p f g [] keeps = refl
  update-update p f g (x ∷ xs) keeps = elim (Bool-cases (p x)) [
    | inl e ↦ rw (e, keeps x, e) (ap (λ ys. g (f x) ∷ ys) (update-update p f g xs keeps))
    | inr e ↦ rw (e, e) (ap (λ ys. x ∷ ys) (update-update p f g xs keeps))
  ]

  -- An UPDATE of other rows.
  pub select-update_other :
      (p q : A → Bool) (f : A → A) (xs : List A)
      → ((x : A) → p (f x) ≡ p x)
      → ((x : A) → q x ≡ true → p x ≡ false)
      → select p (update q f xs) ≡ select p xs
  select-update_other p q f [] keeps other = refl
  select-update_other p q f (x ∷ xs) keeps other = elim (Bool-cases (q x)) [
    | inl e ↦ rw (e, keeps x, other x e) (select-update_other p q f xs keeps other)
    | inr e ↦ rw (e, select-update_other p q f xs keeps other) refl
  ]

  -- A DELETE of other rows, and an INSERT of another row.
  pub select-reject :
      (p q : A → Bool) (xs : List A)
      → ((x : A) → q x ≡ true → p x ≡ false)
      → select p (reject q xs) ≡ select p xs
  select-reject p q [] other = refl
  select-reject p q (x ∷ xs) other = elim (Bool-cases (q x)) [
    | inl e ↦ rw (e, other x e) (select-reject p q xs other)
    | inr e ↦ rw (e, select-reject p q xs other) refl
  ]

  pub select-append :
      (p : A → Bool) (xs : List A) (y : A) → p y ≡ false → select p (xs ++ y ∷ []) ≡ select p xs
  select-append p [] y h = rw h refl
  select-append p (x ∷ xs) y h = rw (select-append p xs y h) refl

  pub select-concat :
      (p : A → Bool) (xs ys : List A) → select p (xs ++ ys) ≡ select p xs ++ select p ys
  select-concat p [] ys = refl
  select-concat p (x ∷ xs) ys = elim (Bool-cases (p x)) [
    | inl e ↦ rw (e, select-concat p xs ys) refl
    | inr e ↦ rw (e, select-concat p xs ys) refl
  ]

  pub update-concat :
      (p : A → Bool) (f : A → A) (xs ys : List A)
      → update p f (xs ++ ys) ≡ update p f xs ++ update p f ys
  update-concat p f [] ys = refl
  update-concat p f (x ∷ xs) ys = rw (update-concat p f xs ys) refl

  -- An UPDATE of no row.
  pub update_absent :
      (p : A → Bool) (f : A → A) (xs : List A) → any p xs ≡ false → update p f xs ≡ xs
  update_absent p f [] h = refl
  update_absent p f (x ∷ xs) h = elim (Bool-cases (p x)) [
    | inl e ↦ absurd (ground (arith, e, h))
    | inr e ↦ rw (e, update_absent p f xs (rw e at h)) refl
  ]

  -- An UPDATE of just these rows.
  pub select-update_same :
      (p : A → Bool) (f : A → A) (xs : List A)
      → ((x : A) → p (f x) ≡ p x)
      → select p (update p f xs) ≡ map f (select p xs)
  select-update_same p f [] keeps = refl
  select-update_same p f (x ∷ xs) keeps = elim (Bool-cases (p x)) [
    | inl e ↦ rw (e, keeps x, e) (ap (λ ys. f x ∷ ys) (select-update_same p f xs keeps))
    | inr e ↦ rw (e, e) (select-update_same p f xs keeps)
  ]

  pub All-of_select {κ} :
      (Q : A → Type κ) (p : A → Bool) (xs : List A)
      → All Q (select p xs)
      → All (λ x. p x ≡ true → Q x) xs
  All-of_select Q p [] h = tt
  All-of_select Q p (x ∷ xs) h = elim (Bool-cases (p x)) [
    | inl e ↦ ((λ here. (rw e at h).0), All-of_select Q p xs (rw e at h).1)
    | inr e ↦ ((λ here. absurd cc), All-of_select Q p xs (rw e at h))
  ]

  pub first-select-update :
      (p : A → Bool) (f : A → A) (xs : List A) (r : A)
      → ((x : A) → p (f x) ≡ p x)
      → first (select p xs) ≡ some r
      → first (select p (update p f xs)) ≡ some (f r)
  first-select-update p f [] r keeps h = absurd cc
  first-select-update p f (x ∷ xs) r keeps h = elim (Bool-cases (p x)) [
    | inl e ↦
        rw (e, keeps x, e) (ap (λ o. elim o [ none ↦ none | some y ↦ some (f y) ]) (rw e at h))
    | inr e ↦ rw (e, e) (first-select-update p f xs r keeps (rw e at h))
  ]

  -- A row that is put last is found if no row before it matches.
  pub first-select-append :
      (p : A → Bool) (xs : List A) (r : A)
      → any p xs ≡ false
      → p r ≡ true
      → first (select p (xs ++ r ∷ [])) ≡ some r
  first-select-append p [] r h here = rw here refl
  first-select-append p (x ∷ xs) r h here = elim (Bool-cases (p x)) [
    | inl e ↦ ground arith
    | inr e ↦ rw e (first-select-append p xs r (rw e at h) here)
  ]

module _ {ℓ κ} {A : Type ℓ} (P : A → Type κ) where
  pub All-append : (xs ys : List A) → All P xs → All P ys → All P (xs ++ ys)
  All-append [] ys hx hy = hy
  All-append (x ∷ xs) ys hx hy = (hx.0, All-append xs ys hx.1 hy)

  pub All-select : (p : A → Bool) (xs : List A) → All P xs → All P (select p xs)
  All-select p [] h = h
  All-select p (x ∷ xs) h = elim (Bool-cases (p x)) [
    | inl e ↦ rw e (h.0, All-select p xs h.1)
    | inr e ↦ rw e (All-select p xs h.1)
  ]

  pub All-take : (n : ℕ) (xs : List A) → All P xs → All P (take n xs)
  All-take zero xs h = tt
  All-take (suc n) [] h = tt
  All-take (suc n) (x ∷ xs) h = (h.0, All-take n xs h.1)

  -- What a test rules out of the list.
  pub All-reject :
      (p : A → Bool) (xs : List A) → ((x : A) → p x ≡ false → P x) → All P (reject p xs)
  All-reject p [] f = tt
  All-reject p (x ∷ xs) f = elim (Bool-cases (p x)) [
    | inl e ↦ rw e (All-reject p xs f)
    | inr e ↦ rw e (f x e, All-reject p xs f)
  ]

  pub reject-All : (p : A → Bool) (xs : List A) → All P xs → All P (reject p xs)
  reject-All p [] h = h
  reject-All p (x ∷ xs) h = elim (Bool-cases (p x)) [
    | inl e ↦ rw e (reject-All p xs h.1)
    | inr e ↦ rw e (h.0, reject-All p xs h.1)
  ]

  pub All-update :
      (p : A → Bool) (f : A → A) (xs : List A)
      → ((x : A) → p x ≡ true → P x → P (f x))
      → All P xs
      → All P (update p f xs)
  All-update p f [] g h = h
  All-update p f (x ∷ xs) g h = elim (Bool-cases (p x)) [
    | inl e ↦ rw e (g x e h.0, All-update p f xs g h.1)
    | inr e ↦ rw e (h.0, All-update p f xs g h.1)
  ]

  All-insert_by :
      (le : A → A → Bool) (x : A) (ys : List A) → P x → All P ys → All P (insert_by le x ys)
  All-insert_by le x [] hx h = (hx, h)
  All-insert_by le x (y ∷ ys) hx h = elim (Bool-cases (le x y)) [
    | inl e ↦ rw e (hx, h)
    | inr e ↦ rw e (h.0, All-insert_by le x ys hx h.1)
  ]

  pub All-sort_by : (le : A → A → Bool) (xs : List A) → All P xs → All P (sort_by le xs)
  All-sort_by le [] h = h
  All-sort_by le (x ∷ xs) h = All-insert_by le x (sort_by le xs) h.0 (All-sort_by le xs h.1)

module _ {ℓ κ μ} {A : Type ℓ} {B : Type κ} (P : B → Type μ) (f : A → B) where
  pub All-map : (xs : List A) → All (λ a. P (f a)) xs → All P (map f xs)
  All-map [] h = tt
  All-map (x ∷ xs) h = (h.0, All-map xs h.1)

module _ {ℓ κ} {A : Type ℓ} (R : A → A → Type κ) (le : A → A → Bool)
    (holds : (a b : A) → le a b ≡ true → R a b) (fails : (a b : A) → le a b ≡ false → R b a) where
  IsOrdered-insert_by : (x : A) (ys : List A) → IsOrdered R ys → IsOrdered R (insert_by le x ys)
  IsOrdered-insert_by x [] h = tt
  IsOrdered-insert_by x (y ∷ []) h = elim (Bool-cases (le x y)) [
    | inl e ↦ rw e (holds x y e, tt)
    | inr e ↦ rw e (fails x y e, tt)
  ]
  IsOrdered-insert_by x (y ∷ z ∷ zs) h = elim (Bool-cases (le x y)) [
    | inl e ↦ rw e (holds x y e, h)
    | inr e ↦ rw e (after e (IsOrdered-insert_by x (z ∷ zs) h.1))
  ]
    where
      after :
          le x y ≡ false
          → IsOrdered R (insert_by le x (z ∷ zs))
          → IsOrdered R (y ∷ insert_by le x (z ∷ zs))
      after e r = elim (Bool-cases (le x z)) [
        | inl e' ↦ rw e' (fails x y e, (holds x z e', h.1))
        | inr e' ↦ rw e' (h.0, (rw e' at r))
      ]

  pub sort_by-IsOrdered : (xs : List A) → IsOrdered R (sort_by le xs)
  sort_by-IsOrdered [] = tt
  sort_by-IsOrdered (x ∷ xs) = IsOrdered-insert_by x (sort_by le xs) (sort_by-IsOrdered xs)
