-- ===== src/Prelude/Rows.antt =====
-- What queries, changes and deletions do to the tests over all rows.
use mathlib.Core.Path.{◌≡◌, refl, subst}
use mathlib.Core.Logic.{inl, inr}
use mathlib.Core.Bool.{Bool, true, false, not, ◌&&◌, ◌||◌}
use mathlib.Core.Option.{none, some}
use mathlib.Core.List.{List, [], ◌∷◌, ◌++◌, Memᴰ, map}
use native.Mathlib.Omega.{arith}
use big_bug.Prelude.Tests.{is_some, HasEquality, ◌==◌, if◌then◌else◌, Bool-cases}
use big_bug.Prelude.Lists.{any, all, select, delete_where, find, contains, update_where, first}

pub first-select {ℓ} : {A : Type ℓ} (p : A → Bool) (xs : List A) → first (select p xs) ≡ find p xs
first-select p [] = refl
first-select p (x ∷ xs) = ground (arith, first-select p xs)

pub find-update_where {ℓ} :
    {A : Type ℓ} (p q : A → Bool) (f : A → A) (xs : List A)
    → ((x : A) → q x ≡ true → p (f x) ≡ p x)
    → find p (update_where q f xs)
      ≡ elim (find p xs) [ none ↦ none | some x ↦ some (if q x then f x else x) ]
find-update_where p q f [] h = refl
find-update_where p q f (x ∷ xs) h = ground (arith, h x, find-update_where p q f xs h)

pub any-update_where {ℓ} :
    {A : Type ℓ} (p q : A → Bool) (f : A → A) (xs : List A)
    → any p (update_where q f xs) ≡ any (λ x. if q x then p (f x) else p x) xs
any-update_where p q f [] = refl
any-update_where p q f (x ∷ xs) = ground (arith, any-update_where p q f xs)

pub any_congr {ℓ} :
    {A : Type ℓ} (p q : A → Bool) (xs : List A) → ((x : A) → p x ≡ q x) → any p xs ≡ any q xs
any_congr p q [] h = refl
any_congr p q (x ∷ xs) h = ground (arith, h x, any_congr p q xs h)

pub any-map {ℓ κ} :
    {A : Type ℓ} {B : Type κ} (p : B → Bool) (f : A → B) (xs : List A)
    → any p (map f xs) ≡ any (λ x. p (f x)) xs
any-map p f [] = refl
any-map p f (x ∷ xs) = ground (arith, any-map p f xs)

pub is_some-find {ℓ} : {A : Type ℓ} (p : A → Bool) (xs : List A) → is_some (find p xs) ≡ any p xs
is_some-find p [] = refl
is_some-find p (x ∷ xs) = ground (arith, is_some-find p xs)

pub any-none {ℓ} :
    {A : Type ℓ} (p : A → Bool) (xs : List A) → ((x : A) → p x ≡ false) → any p xs ≡ false
any-none p [] h = refl
any-none p (x ∷ xs) h = ground (arith, h x, any-none p xs h)

-- A row that `DELETE … WHERE q` removes is not found by a condition that implies `q`.
pub any-delete_where {ℓ} :
    {A : Type ℓ} (p q : A → Bool) (xs : List A)
    → ((x : A) → p x ≡ true → q x ≡ true)
    → any p (delete_where q xs) ≡ false
any-delete_where p q [] h = refl
any-delete_where p q (x ∷ xs) h = ground (arith, h x, any-delete_where p q xs h)

-- A row that `DELETE … WHERE q` keeps is found as before.
pub any-delete_where_ne {ℓ} :
    {A : Type ℓ} (p q : A → Bool) (xs : List A)
    → ((x : A) → p x ≡ true → q x ≡ false)
    → any p (delete_where q xs) ≡ any p xs
any-delete_where_ne p q [] h = refl
any-delete_where_ne p q (x ∷ xs) h = ground (arith, h x, any-delete_where_ne p q xs h)

pub all-contains {ℓ} :
    {A : Type ℓ} ⦃e : HasEquality A⦄ (p : A → Bool) (xs : List A) (a : A)
    → all p xs ≡ true
    → contains xs a ≡ true
    → p a ≡ true
all-contains p [] a h m = ground arith
all-contains ⦃e⦄ p (x ∷ xs) a h m = elim (Bool-cases (x == a)) [
  | inl same ↦ subst (λ y. p y ≡ true) ((e.agrees x a).0 same) (ground arith)
  | inr other ↦ all-contains p xs a (ground arith) (ground arith)
]

pub all_mem {ℓ} :
    {A : Type ℓ} (p : A → Bool) (xs : List A) → ((x : A) → Memᴰ x xs → p x ≡ true) → all p xs ≡ true
all_mem p [] h = refl
all_mem p (x ∷ xs) h = ground (arith, h x (Memᴰ.head refl), all_mem p xs (λ y m. h y (Memᴰ.tail m)))

pub all-map {ℓ κ} :
    {A : Type ℓ} {B : Type κ} (p : B → Bool) (f : A → B) (xs : List A)
    → all p (map f xs) ≡ all (λ x. p (f x)) xs
all-map p f [] = refl
all-map p f (x ∷ xs) = ground (arith, all-map p f xs)

pub mem-all {ℓ} :
    {A : Type ℓ} (p : A → Bool) (xs : List A) {x : A} → Memᴰ x xs → all p xs ≡ true → p x ≡ true
mem-all p [] m h = elim m [ ]
mem-all p (y ∷ xs) {x} (Memᴰ.head q) h = rw q (ground arith)
mem-all p (y ∷ xs) {x} (Memᴰ.tail m) h = mem-all p xs m (ground arith)

-- A changed row satisfies what it is changed to satisfy, the others what they did.
pub all-update_where {ℓ} :
    {A : Type ℓ} (p q : A → Bool) (f : A → A) (xs : List A)
    → ((x : A) → q x ≡ true → p x ≡ true → p (f x) ≡ true)
    → all p xs ≡ true
    → all p (update_where q f xs) ≡ true
all-update_where p q f [] h a = refl
all-update_where p q f (x ∷ xs) h a = ground (arith, h x, all-update_where p q f xs h)

pub select-append {ℓ} :
    {A : Type ℓ} (p : A → Bool) (xs ys : List A) → select p (xs ++ ys) ≡ select p xs ++ select p ys
select-append p [] ys = refl
select-append p (x ∷ xs) ys = ground (arith, select-append p xs ys)

-- Rows that `q` marks are no rows that `p` selects: changing or deleting them is not seen.
pub select-update_where {ℓ} :
    {A : Type ℓ} (p q : A → Bool) (f : A → A) (xs : List A)
    → all (λ x. not (q x) || not (p x) && not (p (f x))) xs ≡ true
    → select p (update_where q f xs) ≡ select p xs
select-update_where p q f [] h = refl
select-update_where p q f (x ∷ xs) h = ground (arith, select-update_where p q f xs)

pub select-delete_where {ℓ} :
    {A : Type ℓ} (p q : A → Bool) (xs : List A)
    → all (λ x. not (q x) || not (p x)) xs ≡ true
    → select p (delete_where q xs) ≡ select p xs
select-delete_where p q [] h = refl
select-delete_where p q (x ∷ xs) h = ground (arith, select-delete_where p q xs)

pub all_both {ℓ} :
    {A : Type ℓ} (p q r : A → Bool) (xs : List A)
    → ((x : A) → p x ≡ true → q x ≡ true → r x ≡ true)
    → all p xs ≡ true
    → all q xs ≡ true
    → all r xs ≡ true
all_both p q r [] imp h k = refl
all_both p q r (x ∷ xs) imp h k = ground (arith, imp x, all_both p q r xs imp)

pub any_mono {ℓ} :
    {A : Type ℓ} (p q : A → Bool) (xs : List A)
    → ((x : A) → p x ≡ true → q x ≡ true)
    → any p xs ≡ true
    → any q xs ≡ true
any_mono p q [] imp h = h
any_mono p q (x ∷ xs) imp h = ground (arith, imp x, any_mono p q xs imp)

-- An update turns rows with `p` into rows with `r`.
pub all_over_update {ℓ} :
    {A : Type ℓ} (p r q : A → Bool) (f : A → A) (xs : List A)
    → ((x : A) → p x ≡ true → r (if q x then f x else x) ≡ true)
    → all p xs ≡ true
    → all r (update_where q f xs) ≡ true
all_over_update p r q f [] imp h = refl
all_over_update p r q f (x ∷ xs) imp h = ground (arith, imp x, all_over_update p r q f xs imp)

-- What holds of all rows holds of the row that is found.
pub all-find {ℓ} :
    {A : Type ℓ} (q p : A → Bool) (xs : List A) {a : A}
    → all q xs ≡ true
    → find p xs ≡ some a
    → q a ≡ true
all-find q p [] h f = ground arith
all-find q p (x ∷ xs) {a} h f = elim (Bool-cases (p x)) [
  | inl hit ↦ let same : x ≡ a = ground arith in subst (λ y. q y ≡ true) same (ground arith)
  | inr miss ↦ all-find q p xs (ground arith) (ground arith)
]
