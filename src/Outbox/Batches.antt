-- ===== src/Outbox/Batches.antt =====
-- What a batch of the sender holds (backend/app/tasks/outbox_tasks.py).
use big_bug.Prelude.{
  ℕ, ◌+◌, ◌-◌, ◌≤◌, ◌<◌, ◌≡◌, refl, sym, ap, ◌∙◌, Bool, true, false, ◌&&◌, ◌||◌, List, [], ◌∷◌,
  Memᴰ, arith, text_keys, number_keys, ◌==◌, length, any, all, select, any-select, mem-any, unique,
  unique-select, all_mem, mem-all, any_mono,
}
use big_bug.Outbox.{Notification, Outbox, unsent, place, ordered, take, pending}

abbrev pub id_of : Notification → ℕ
id_of n = n.id

any-place :
    (p : Notification → Bool) (n : Notification) (xs : List Notification)
    → any p (place n xs) ≡ (p n || any p xs)
any-place p n [] = refl
any-place p n (x ∷ xs) = ground (arith, any-place p n xs)

all-place :
    (p : Notification → Bool) (n : Notification) (xs : List Notification)
    → all p (place n xs) ≡ (p n && all p xs)
all-place p n [] = refl
all-place p n (x ∷ xs) = ground (arith, all-place p n xs)

length-place : (n : Notification) (xs : List Notification) → length (place n xs) ≡ length xs + 1
length-place n [] = ground arith
length-place n (x ∷ xs) = ground (arith, length-place n xs)

any-ordered : (p : Notification → Bool) (xs : List Notification) → any p (ordered xs) ≡ any p xs
any-ordered p [] = refl
any-ordered p (x ∷ xs) = any-place p x (ordered xs) ∙ ap (λ b. p x || b) (any-ordered p xs)

all-ordered : (p : Notification → Bool) (xs : List Notification) → all p (ordered xs) ≡ all p xs
all-ordered p [] = refl
all-ordered p (x ∷ xs) = all-place p x (ordered xs) ∙ ap (λ b. p x && b) (all-ordered p xs)

length-ordered : (xs : List Notification) → length (ordered xs) ≡ length xs
length-ordered [] = refl
length-ordered (x ∷ xs) = ground (arith, length-place x (ordered xs), length-ordered xs)

unique-place :
    (n : Notification) (xs : List Notification)
    → unique id_of xs ≡ true
    → any (λ x. x.id == n.id) xs ≡ false
    → unique id_of (place n xs) ≡ true
unique-place n [] u h = refl
unique-place n (x ∷ xs) u h = ground (arith, unique-place n xs, any-place (λ y. y.id == x.id) n xs)

unique-ordered :
    (xs : List Notification) → unique id_of xs ≡ true → unique id_of (ordered xs) ≡ true
unique-ordered [] u = refl
unique-ordered (x ∷ xs) u =
    unique-place x (ordered xs) (unique-ordered xs (ground arith))
      (any-ordered (λ y. y.id == x.id) xs ∙ ground arith)

all-take :
    (p : Notification → Bool) (n : ℕ) (xs : List Notification)
    → all p xs ≡ true
    → all p (take n xs) ≡ true
all-take p n [] h = refl
all-take p n (x ∷ xs) h = ground (arith, all-take p (n - 1) xs)

any-take :
    (p : Notification → Bool) (n : ℕ) (xs : List Notification)
    → any p xs ≡ false
    → any p (take n xs) ≡ false
any-take p n [] h = refl
any-take p n (x ∷ xs) h = ground (arith, any-take p (n - 1) xs)

unique-take :
    (n : ℕ) (xs : List Notification) → unique id_of xs ≡ true → unique id_of (take n xs) ≡ true
unique-take n [] u = refl
unique-take n (x ∷ xs) u =
    ground (arith, unique-take (n - 1) xs, any-take (λ y. y.id == x.id) (n - 1) xs)

-- A batch below the limit is everything.
length-take :
    (n : ℕ) (xs : List Notification) → length (take n xs) < n → length (take n xs) ≡ length xs
length-take n [] h = refl
length-take n (x ∷ xs) h = ground (arith, length-take (n - 1) xs)

length-take_le : (n : ℕ) (xs : List Notification) → length (take n xs) ≤ n
length-take_le n [] = ground arith
length-take_le n (x ∷ xs) = ground (arith, length-take_le (n - 1) xs)

selected : (rows : List Notification) → all unsent (select unsent rows) ≡ true
selected [] = refl
selected (x ∷ rows) = ground (arith, selected rows)

-- A row that waits under an id.
abbrev pub waits : List Notification → Notification → Bool
waits rows x = any (λ y. unsent y && y.id == x.id) rows

same_id : (x : Notification) → (x.id == x.id) ≡ true
same_id x = ground arith

unsent_row :
    (rows : List Notification) (x : Notification)
    → Memᴰ x (select unsent rows)
    → waits rows x ≡ true
unsent_row rows x m =
    let here = mem-all unsent (select unsent rows) m (selected rows) in
    let found =
      mem-any (λ y. unsent y && y.id == x.id) (select unsent rows) m (ground (arith, same_id x)) in
    any_mono (λ y. unsent y && (unsent y && y.id == x.id)) (λ y. unsent y && y.id == x.id) rows
      (λ y h. ground arith) (sym (any-select (λ y. unsent y && y.id == x.id) unsent rows) ∙ found)

-- Every row of a batch waits in the table, and no id comes twice.
pub pending-waits :
    (batch_size : ℕ) (box : Outbox) → all (waits box.rows) (pending batch_size box) ≡ true
unfolding pending
pending-waits batch_size box =
    all-take (waits box.rows) batch_size (ordered (select unsent box.rows)) (
      all-ordered (waits box.rows) (select unsent box.rows)
      ∙ all_mem (waits box.rows) (select unsent box.rows) (unsent_row box.rows))

pub unique-pending :
    (batch_size : ℕ) (box : Outbox)
    → unique id_of box.rows ≡ true
    → unique id_of (pending batch_size box) ≡ true
unfolding pending
unique-pending batch_size box u =
    unique-take batch_size _
      (unique-ordered (select unsent box.rows) (unique-select id_of unsent box.rows u))

pub length-pending :
    (batch_size : ℕ) (box : Outbox)
    → length (pending batch_size box) < batch_size
    → length (pending batch_size box) ≡ length (select unsent box.rows)
unfolding pending
length-pending batch_size box h =
    length-take batch_size (ordered (select unsent box.rows)) h
    ∙ length-ordered (select unsent box.rows)
