-- ===== src/Prelude/Keys.antt =====
-- Tables whose rows have a unique key.
use Prim.Native.Nat.{ℕ, ◌+◌}
use mathlib.Core.Path.{◌≡◌, refl, sym, subst, ap}
use mathlib.Core.Logic.{◌≢◌, inl, inr}
use mathlib.Core.Bool.{Bool, true, false, not, ◌&&◌, ◌||◌}
use mathlib.Core.Option.{none, some}
use mathlib.Core.List.{List, [], ◌∷◌, ◌++◌, Memᴰ}
use native.Mathlib.Omega.{arith}
use big_bug.Prelude.Tests.{ltb, number_keys, HasEquality, ◌==◌, Bool-cases}
use big_bug.Prelude.Lists.{any, all, select, find, any-append, update_where, mem-any}

module _ {ℓ κ} {A : Type ℓ} {B : Type κ} ⦃e : HasEquality B⦄ (f : A → B) where
  -- A unique key: no two rows have the same value in the column `f`.
  abbrev pub unique : List A → Bool
  unique [] = true
  unique (x ∷ xs) = not (any (λ y. f y == f x) xs) && unique xs

  pub unique-append_one :
      (xs : List A) (a : A)
      → unique xs ≡ true
      → any (λ y. f y == f a) xs ≡ false
      → unique (xs ++ a ∷ []) ≡ true
  unique-append_one [] a h n = refl
  unique-append_one (x ∷ xs) a h n = ground (
    arith,
    unique-append_one xs a,
    any-append (λ y. f y == f x) xs (a ∷ []),
    e.agrees (f a) (f x),
    e.agrees (f x) (f a),
  )

  any-select-le :
      (q : A → Bool) (xs : List A) (b : B)
      → any (λ y. f y == b) xs ≡ false
      → any (λ y. f y == b) (select q xs) ≡ false
  any-select-le q [] b h = refl
  any-select-le q (x ∷ xs) b h = ground (arith, any-select-le q xs b)

  pub unique-select : (q : A → Bool) (xs : List A) → unique xs ≡ true → unique (select q xs) ≡ true
  unique-select q [] h = refl
  unique-select q (x ∷ xs) h = ground (arith, unique-select q xs, any-select-le q xs (f x))

  any-and-le :
      (c : A → Bool) (xs : List A) (b : B)
      → any (λ y. f y == b) xs ≡ false
      → any (λ y. c y && f y == b) xs ≡ false
  any-and-le c [] b h = refl
  any-and-le c (x ∷ xs) b h = ground (arith, any-and-le c xs b)

  -- With a unique key, what holds of the row with the key of `x` holds of `x`.
  pub any-unique :
      (c : A → Bool) (xs : List A) {x : A}
      → unique xs ≡ true
      → Memᴰ x xs
      → any (λ y. c y && f y == f x) xs ≡ c x
  any-unique c [] h m = elim m [ ]
  any-unique c (y ∷ xs) {x} h (Memᴰ.head p) =
      subst (λ z. any (λ w. c w && f w == f z) (y ∷ xs) ≡ c z) (sym p)
        (ground (arith, any-and-le c xs (f y), (e.agrees (f y) (f y)).1 refl))
  any-unique c (y ∷ xs) {x} h (Memᴰ.tail m) = ground (
    arith,
    any-unique c xs (ground arith) m,
    mem-any (λ z. f z == f y) xs m,
    e.agrees (f y) (f x),
    e.agrees (f x) (f y),
  )

module _ {ℓ κ} {A : Type ℓ} {B : Type κ} ⦃e : HasEquality B⦄ (f : A → B) (b : B) where
  absent_and :
      (q : A → Bool) (xs : List A)
      → any (λ x. f x == b) xs ≡ false
      → any (λ x. q x && f x == b) xs ≡ false
  absent_and q [] h = refl
  absent_and q (x ∷ xs) h = ground (arith, absent_and q xs)

  -- With a unique key, a query for one key and a condition tests the row that the key finds.
  pub any-found :
      (q : A → Bool) (xs : List A)
      → unique f xs ≡ true
      → any (λ x. q x && f x == b) xs
        ≡ elim (find (λ x. f x == b) xs) [ none ↦ false | some x ↦ q x ]
  any-found q [] u = refl
  any-found q (x ∷ xs) u = elim (Bool-cases (f x == b)) [
    | inl same ↦
        let rest : any (λ y. f y == b) xs ≡ false =
          subst (λ k. any (λ y. f y == k) xs ≡ false) ((e.agrees (f x) b).0 same) (ground arith) in
        ground (arith, absent_and q xs rest)
    | inr other ↦ ground (arith, any-found q xs)
  ]

module _ {ℓ κ} {A : Type ℓ} {B : Type κ} ⦃e : HasEquality B⦄ (f : A → B) (b : B)
    (p : A → Bool) where
  absent_key :
      (xs : List A) → any (λ x. f x == b) xs ≡ false → all (λ x. not (f x == b) || p x) xs ≡ true
  absent_key [] h = refl
  absent_key (x ∷ xs) h = ground (arith, absent_key xs)

  -- With a unique key, what holds of the row that is found holds of every row with its key.
  pub only_row :
      (xs : List A) {a : A}
      → unique f xs ≡ true
      → find (λ x. f x == b) xs ≡ some a
      → p a ≡ true
      → all (λ x. not (f x == b) || p x) xs ≡ true
  only_row [] u h pa = refl
  only_row (x ∷ xs) {a} u h pa = elim (Bool-cases (f x == b)) [
    | inl same ↦
        let rest : any (λ y. f y == b) xs ≡ false =
          subst (λ k. any (λ y. f y == k) xs ≡ false) ((e.agrees (f x) b).0 same) (ground arith) in
        ground (arith, absent_key xs rest)
    | inr other ↦ ground (arith, only_row xs {a = a})
  ]

module _ {ℓ κ} {A : Type ℓ} {B : Type κ} ⦃e : HasEquality B⦄ (f : A → B) (b : B)
    (c : A → Bool) where
  no_key :
      (xs : List A) {a : A}
      → any (λ x. f x == b) xs ≡ false
      → find (λ x. f x == b && c x) xs ≢ some a
  no_key [] n h = cc
  no_key (x ∷ xs) {a} n h = no_key xs {a = a} (ground arith) (ground arith)

  -- With a unique key, a row that is found by its key and a condition is the row with the key.
  pub found_with :
      (xs : List A) {a : A}
      → unique f xs ≡ true
      → find (λ x. f x == b && c x) xs ≡ some a
      → find (λ x. f x == b) xs ≡ some a
  found_with [] u h = h
  found_with (x ∷ xs) {a} u h = elim (Bool-cases (f x == b)) [
    | inl same ↦
        let rest : any (λ y. f y == b) xs ≡ false =
          subst (λ k. any (λ y. f y == k) xs ≡ false) ((e.agrees (f x) b).0 same) (ground arith) in
        elim (Bool-cases (c x)) [
          | inl holds ↦ ground arith
          | inr fails ↦ elim (no_key xs {a = a} rest (ground arith)) [ ]
        ]
    | inr other ↦ ground (arith, found_with xs {a = a})
  ]

-- Ids that are drawn from a sequence.
module _ {ℓ} {A : Type ℓ} (f : A → ℕ) where
  pub sequence-fresh :
      (next : ℕ) (xs : List A)
      → all (λ x. ltb (f x) next) xs ≡ true
      → any (λ x. f x == next) xs ≡ false
  sequence-fresh next [] h = refl
  sequence-fresh next (x ∷ xs) h = ground (arith, sequence-fresh next xs)

  pub sequence-next :
      (next : ℕ) (xs : List A)
      → all (λ x. ltb (f x) next) xs ≡ true
      → all (λ x. ltb (f x) (next + 1)) xs ≡ true
  sequence-next next [] h = refl
  sequence-next next (x ∷ xs) h = ground (arith, sequence-next next xs)

-- Overwriting the row of one key by a row with the same key.
module _ {ℓ κ} {A : Type ℓ} {B : Type κ} ⦃e : HasEquality B⦄ (f : A → B) (a : A) where
  abbrev pub overwrite : List A → List A
  overwrite = update_where (λ x. f x == f a) (λ _. a)

  pub any_key-overwrite :
      (k : B) (xs : List A) → any (λ x. f x == k) (overwrite xs) ≡ any (λ x. f x == k) xs
  any_key-overwrite k [] = refl
  any_key-overwrite k (x ∷ xs) = elim (Bool-cases (f x == f a)) [
    | inl same ↦
        let s : f x ≡ f a = (e.agrees (f x) (f a)).0 same in
        rw (same, ← s) (ground (arith, any_key-overwrite k xs))
    | inr other ↦ ground (arith, any_key-overwrite k xs)
  ]

  pub unique-overwrite : (xs : List A) → unique f xs ≡ true → unique f (overwrite xs) ≡ true
  unique-overwrite [] h = refl
  unique-overwrite (x ∷ xs) h = elim (Bool-cases (f x == f a)) [
    | inl same ↦
        let s : f x ≡ f a = (e.agrees (f x) (f a)).0 same in
        rw same (rw (← s) (ground (arith, unique-overwrite xs, any_key-overwrite (f x) xs)))
    | inr other ↦ ground (arith, unique-overwrite xs, any_key-overwrite (f x) xs)
  ]

-- A change of rows that keeps their key.
module _ {ℓ κ} {A : Type ℓ} {B : Type κ} ⦃e : HasEquality B⦄ (f : A → B) (q : A → Bool) (g : A → A)
    (same : (x : A) → f (g x) ≡ f x) where
  any_key-update_where :
      (k : B) (xs : List A) → any (λ x. f x == k) (update_where q g xs) ≡ any (λ x. f x == k) xs
  any_key-update_where k [] = refl
  any_key-update_where k (x ∷ xs) = elim (Bool-cases (q x)) [
    | inl h ↦ rw h (rw (same x) (ap (λ b. (f x == k) || b) (any_key-update_where k xs)))
    | inr h ↦ rw h (ap (λ b. (f x == k) || b) (any_key-update_where k xs))
  ]

  pub unique-update_where :
      (xs : List A) → unique f xs ≡ true → unique f (update_where q g xs) ≡ true
  unique-update_where [] h = refl
  unique-update_where (x ∷ xs) h = elim (Bool-cases (q x)) [
    | inl s ↦
        rw s (rw (same x) (ground (arith, unique-update_where xs, any_key-update_where (f x) xs)))
    | inr s ↦ rw s (ground (arith, unique-update_where xs, any_key-update_where (f x) xs))
  ]
