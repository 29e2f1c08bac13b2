-- ===== src/Prelude/Partial.antt =====
-- Columns that are unique among the rows with a property: partial unique indices.
use mathlib.Core.Path.{◌≡◌, refl, subst}
use mathlib.Core.Logic.{inl, inr}
use mathlib.Core.Bool.{Bool, true, false, not, ◌&&◌, ◌||◌}
use mathlib.Core.List.{List, [], ◌∷◌}
use native.Mathlib.Omega.{arith}
use big_bug.Prelude.Tests.{HasEquality, ◌==◌, Bool-cases}
use big_bug.Prelude.Lists.{any, all, select, update_where}
use big_bug.Prelude.Keys.{unique, overwrite}

module _ {ℓ κ} {A : Type ℓ} {B : Type κ} ⦃e : HasEquality B⦄ (key : A → B) (c : A → Bool) where
  -- A change after which the rows with `c` had it, and their key, before.
  abbrev pub keeps_key : (A → Bool) → (A → A) → A → Bool
  keeps_key q f x = not (q x) || (not (c (f x)) || c x && key (f x) == key x)

  module _ (q : A → Bool) (f : A → A) where
    no_new_key :
        (k : B) (xs : List A)
        → all (keeps_key q f) xs ≡ true
        → any (λ x. key x == k) (select c xs) ≡ false
        → any (λ x. key x == k) (select c (update_where q f xs)) ≡ false
    no_new_key k [] h n = n
    no_new_key k (x ∷ xs) h n = elim (Bool-cases (q x)) [
      | inr other ↦ rw other (ground (arith, no_new_key k xs))
      | inl hit ↦ elim (Bool-cases (c (f x))) [
        | inr out ↦ rw (hit, out) (ground (arith, no_new_key k xs))
        | inl in_it ↦
            let same : key (f x) ≡ key x = (e.agrees (key (f x)) (key x)).0 (ground arith) in
            rw (hit, in_it) (rw same (ground (arith, no_new_key k xs)))
      ]
    ]

    pub unique_among-update_where :
        (xs : List A)
        → all (keeps_key q f) xs ≡ true
        → unique key (select c xs) ≡ true
        → unique key (select c (update_where q f xs)) ≡ true
    unique_among-update_where [] h u = refl
    unique_among-update_where (x ∷ xs) h u = elim (Bool-cases (q x)) [
      | inr other ↦ rw other (ground (arith, unique_among-update_where xs, no_new_key (key x) xs))
      | inl hit ↦ elim (Bool-cases (c (f x))) [
        | inr out ↦ rw (hit, out) (ground (arith, unique_among-update_where xs))
        | inl in_it ↦
            let same : key (f x) ≡ key x = (e.agrees (key (f x)) (key x)).0 (ground arith) in
            rw (hit, in_it)
              (rw same (ground (arith, unique_among-update_where xs, no_new_key (key x) xs)))
      ]
    ]

module _ {ℓ κ} {A : Type ℓ} {B I : Type κ} ⦃e : HasEquality B⦄ ⦃d : HasEquality I⦄ (key : A → B)
    (c : A → Bool) (id : A → I) (a : A) where
  -- Rows other than the one that `a` replaces do not have the key of `a` among those with `c`.
  abbrev pub key_free : A → Bool
  key_free x = id x == id a || not (c x && key x == key a)

  other_key :
      (k : B) (xs : List A)
      → (key a == k) ≡ false
      → any (λ x. key x == k) (select c xs) ≡ false
      → any (λ x. key x == k) (select c (overwrite id a xs)) ≡ false
  other_key k [] ne n = n
  other_key k (x ∷ xs) ne n = elim (Bool-cases (id x == id a)) [
    | inr other ↦ rw other (ground (arith, other_key k xs))
    | inl hit ↦ elim (Bool-cases (c a)) [
      | inr out ↦ rw (hit, out) (ground (arith, other_key k xs))
      | inl in_it ↦ rw (hit, in_it) (ground (arith, other_key k xs))
    ]
  ]

  key_absent :
      (xs : List A)
      → any (λ x. id x == id a) xs ≡ false
      → all key_free xs ≡ true
      → any (λ x. key x == key a) (select c (overwrite id a xs)) ≡ false
  key_absent [] n h = refl
  key_absent (x ∷ xs) n h =
      let other : (id x == id a) ≡ false = ground arith in rw other (ground (arith, key_absent xs))

  among_rest :
      (x : A) (xs : List A)
      → unique key (select c (x ∷ xs)) ≡ true
      → unique key (select c xs) ≡ true
  among_rest x xs n = ground arith

  -- Giving the key to the row that `a` replaces.
  pub unique_among-overwrite :
      (xs : List A)
      → unique id xs ≡ true
      → all key_free xs ≡ true
      → unique key (select c xs) ≡ true
      → unique key (select c (overwrite id a xs)) ≡ true
  unique_among-overwrite [] u h n = refl
  unique_among-overwrite (x ∷ xs) u h n = elim (Bool-cases (id x == id a)) [
    | inl hit ↦
        let rest : any (λ y. id y == id a) xs ≡ false =
          subst (λ k. any (λ y. id y == k) xs ≡ false) ((d.agrees (id x) (id a)).0 hit)
            (ground arith) in
        let absent = key_absent xs rest (ground arith) in
        let ih = unique_among-overwrite xs (ground arith) (ground arith) (among_rest x xs n) in
        elim (Bool-cases (c a)) [
          | inl in_it ↦ rw (hit, in_it, absent) ih
          | inr out ↦ rw (hit, out) ih
        ]
    | inr other ↦ rw other (
        ground (
          arith,
          unique_among-overwrite xs,
          other_key (key x) xs,
          e.agrees (key a) (key x),
          e.agrees (key x) (key a),
        ))
  ]
