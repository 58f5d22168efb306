-- ===== src/Lake/Analytics/Groups.antt =====
-- Sums over the groups of a GROUP BY.
use open_mamba.Base.{
  ℕ, ℤ, pos, ◌+ℤ◌, ◌+◌, ◌≡◌, refl, ap, sym, ◌∙◌, String, Bool, true, false, List, [], ◌∷◌, map,
  select, sort_by, insert_by, if◌then◌else◌, Bool-cases, inl, inr, arith, +ℤ_parts, eq_of_parts,
  ◌==◌, eq_iff, eq_refl, All, ◌≤◌,
}
use open_mamba.Lake.Analytics.{keys, add_key}

+ℤ_assoc : (a b c : ℤ) → (a +ℤ b) +ℤ c ≡ a +ℤ (b +ℤ c)
+ℤ_assoc a b c =
    eq_of_parts _ _
      (omega (arith, +ℤ_parts a b, +ℤ_parts b c, +ℤ_parts (a +ℤ b) c, +ℤ_parts a (b +ℤ c)))

+ℤ_comm : (a b : ℤ) → a +ℤ b ≡ b +ℤ a
+ℤ_comm a b = eq_of_parts _ _ (omega (arith, +ℤ_parts a b, +ℤ_parts b a))

pub +ℤ-zero : (a : ℤ) → a +ℤ pos 0 ≡ a
+ℤ-zero a = eq_of_parts _ _ (omega (arith, +ℤ_parts a (pos 0)))

pub +ℤ_swap : (a b c d : ℤ) → (a +ℤ b) +ℤ (c +ℤ d) ≡ (a +ℤ c) +ℤ (b +ℤ d)
+ℤ_swap a b c d = eq_of_parts _ _ (
    omega (
      arith,
      +ℤ_parts a b,
      +ℤ_parts c d,
      +ℤ_parts (a +ℤ b) (c +ℤ d),
      +ℤ_parts a c,
      +ℤ_parts b d,
      +ℤ_parts (a +ℤ c) (b +ℤ d),
    ))

abbrev pub total : List ℤ → ℤ
total [] = pos 0
total (a ∷ as') = a +ℤ total as'

module _ {A : Type 0} (f : A → ℤ) (le : A → A → Bool) where
  total-insert_by :
      (x : A) (ys : List A) → total (map f (insert_by le x ys)) ≡ f x +ℤ total (map f ys)
  total-insert_by x [] = refl
  total-insert_by x (y ∷ ys) = elim (Bool-cases (le x y)) [
    | inl e ↦ rw e refl
    | inr e ↦ rw e (
        ap (λ t. f y +ℤ t) (total-insert_by x ys)
        ∙ (sym (+ℤ_assoc (f y) (f x) (total (map f ys)))
            ∙ (ap (λ t. t +ℤ total (map f ys)) (+ℤ_comm (f y) (f x))
                ∙ +ℤ_assoc (f x) (f y) (total (map f ys)))))
  ]

  pub total-sort_by : (xs : List A) → total (map f (sort_by le xs)) ≡ total (map f xs)
  total-sort_by [] = refl
  total-sort_by (x ∷ xs) = total-insert_by x (sort_by le xs) ∙ ap (λ t. f x +ℤ t) (total-sort_by xs)

zero-+ℤ : (a : ℤ) → pos 0 +ℤ a ≡ a
zero-+ℤ a = +ℤ_comm (pos 0) a ∙ +ℤ-zero a

+ℤ_left : (a b c : ℤ) → a +ℤ (b +ℤ c) ≡ b +ℤ (a +ℤ c)
+ℤ_left a b c = sym (+ℤ_assoc a b c) ∙ (ap (λ t. t +ℤ c) (+ℤ_comm a b) ∙ +ℤ_assoc b a c)

-- How often a key stands in a list.
abbrev times : String → List String → ℕ
times k [] = 0
times k (j ∷ ks) = (if k == j then 1 else 0) + times k ks

module _ {A : Type 0} (key : A → String) (f : A → ℤ) where
  -- The sum of one group.
  abbrev pub group_total : List A → String → ℤ
  group_total rows k = total (map f (select (λ r. key r == k) rows))

  -- A row is counted once for each time that its key stands among the groups.
  absent :
      (r : A) (rows : List A) (ks : List String)
      → times (key r) ks ≡ 0
      → total (map (group_total (r ∷ rows)) ks) ≡ total (map (group_total rows) ks)
  absent r rows [] h = refl
  absent r rows (k ∷ ks) h = elim (Bool-cases (key r == k)) [
    | inl e ↦ absurd (ground (arith, e, h))
    | inr e ↦ rw e (ap (λ t. group_total rows k +ℤ t) (absent r rows ks (ground (arith, e, h))))
  ]

  once :
      (r : A) (rows : List A) (ks : List String)
      → times (key r) ks ≡ 1
      → total (map (group_total (r ∷ rows)) ks) ≡ f r +ℤ total (map (group_total rows) ks)
  once r rows [] h = absurd (omega arith)
  once r rows (k ∷ ks) h = elim (Bool-cases (key r == k)) [
    | inl e ↦ rw e (
        ap (λ t. (f r +ℤ group_total rows k) +ℤ t) (absent r rows ks (ground (arith, e, h)))
        ∙ +ℤ_assoc (f r) (group_total rows k) (total (map (group_total rows) ks)))
    | inr e ↦ rw e (
        ap (λ t. group_total rows k +ℤ t) (once r rows ks (ground (arith, e, h)))
        ∙ +ℤ_left (group_total rows k) (f r) (total (map (group_total rows) ks)))
  ]

  empty_groups : (ks : List String) → total (map (group_total []) ks) ≡ pos 0
  empty_groups [] = refl
  empty_groups (k ∷ ks) = zero-+ℤ (total (map (group_total []) ks)) ∙ empty_groups ks

  partition :
      (rows : List A) (ks : List String)
      → All (λ r. times (key r) ks ≡ 1) rows
      → total (map (group_total rows) ks) ≡ total (map f rows)
  partition [] ks h = empty_groups ks
  partition (r ∷ rows) ks h = once r rows ks h.0 ∙ ap (λ t. f r +ℤ t) (partition rows ks h.1)

same_key : (j k : String) → (j == k) ≡ true → (k == j) ≡ true
same_key j k e = (eq_iff k j).1 (sym ((eq_iff j k).0 e))

other_key : (j k : String) → (j == k) ≡ false → (k == j) ≡ false
other_key j k e = elim (Bool-cases (k == j)) [
  | inl same ↦ let back = same_key k j same in absurd cc
  | inr differs ↦ differs
]

-- A key that is added to the groups stands among them once, and the others as often as before.
times-add_key : (k : String) (ks : List String) → times k ks ≤ 1 → times k (add_key ◌==◌ k ks) ≡ 1
unfolding add_key
times-add_key k [] h = rw (eq_refl k) refl
times-add_key k (j ∷ ks) h = elim (Bool-cases (j == k)) [
  | inl e ↦ rw e (ground (arith, same_key j k e, h))
  | inr e ↦
      rw (e, other_key j k e)
        (ap (λ n. 0 + n) (times-add_key k ks (ground (arith, other_key j k e, h))))
]

times-add_key_other :
    (k i : String) (ks : List String) → (k == i) ≡ false → times k (add_key ◌==◌ i ks) ≡ times k ks
unfolding add_key
times-add_key_other k i [] h = rw h refl
times-add_key_other k i (j ∷ ks) h = elim (Bool-cases (j == i)) [
  | inl e ↦ rw e refl
  | inr e ↦ rw e (ap (λ n. (if k == j then 1 else 0) + n) (times-add_key_other k i ks h))
]

times-keys : (k : String) (ks : List String) → times k (keys ◌==◌ ks) ≤ 1
unfolding keys
times-keys k [] = omega arith
times-keys k (i ∷ ks) = elim (Bool-cases (k == i)) [
  | inl e ↦ rw ((eq_iff k i).0 e) (omega (arith, times-add_key i (keys ◌==◌ ks) (times-keys i ks)))
  | inr e ↦ rw (times-add_key_other k i (keys ◌==◌ ks) e) (times-keys k ks)
]

module _ {A : Type 0} (key : A → String) (f : A → ℤ) where
  covered :
      (rows : List A) (i : String) (ks : List String)
      → times i ks ≤ 1
      → All (λ r. times (key r) ks ≡ 1) rows
      → All (λ r. times (key r) (add_key ◌==◌ i ks) ≡ 1) rows
  covered [] i ks h all = tt
  covered (r ∷ rows) i ks h all = (
    elim (Bool-cases (key r == i)) [
      | inl e ↦ rw ((eq_iff (key r) i).0 e) (times-add_key i ks h)
      | inr e ↦ times-add_key_other (key r) i ks e ∙ all.0
    ],
    covered rows i ks h all.1,
  )

  times-keys-All : (rows : List A) → All (λ r. times (key r) (keys ◌==◌ (map key rows)) ≡ 1) rows
  unfolding keys
  times-keys-All [] = tt
  times-keys-All (r ∷ rows) = (
    times-add_key (key r) (keys ◌==◌ (map key rows)) (times-keys (key r) (map key rows)),
    covered rows (key r) (keys ◌==◌ (map key rows)) (times-keys (key r) (map key rows))
        (times-keys-All rows),
  )

  -- The sums of the groups add up to the sum of all rows.
  pub total-keys :
      (rows : List A)
      → total (map (group_total key f rows) (keys ◌==◌ (map key rows))) ≡ total (map f rows)
  total-keys rows = partition key f rows (keys ◌==◌ (map key rows)) (times-keys-All rows)
