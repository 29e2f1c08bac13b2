-- ===== src/Outbox/Marked.antt =====
-- Marking a notification as sent (backend/app/tasks/outbox_tasks.py).
use big_bug.Prelude.{
  ℕ, suc, ◌+◌, ◌≤◌, ◌≡◌, refl, ap, ◌∙◌, subst, inl, inr, Bool, true, false, not, ◌&&◌, some, List,
  [], ◌∷◌, ◌++◌, arith, if◌then◌else◌, text_keys, number_keys, ◌==◌, Bool-cases, length, any,
  select, update_where, unique, unique-update_where, any-update_where, any_congr,
}
use big_bug.Outbox.{Notification, Event, Outbox, unsent, log_event, mark_sent}
use big_bug.Outbox.Batches.{id_of, waits}

abbrev pub waiting : Outbox → ℕ
waiting box = length (select unsent box.rows)

absent_mark :
    (now id : ℕ) (rows : List Notification)
    → any (λ n. n.id == id) rows ≡ false
    → length
        (select unsent (update_where (λ n. n.id == id) (λ n. record n { sent_at = some now }) rows))
      ≡ length (select unsent rows)
absent_mark now id [] h = refl
absent_mark now id (n ∷ rows) h = ground (arith, absent_mark now id rows)

absent_waits :
    (id : ℕ) (rows : List Notification)
    → any (λ x. x.id == id) rows ≡ false
    → any (λ y. unsent y && y.id == id) rows ≡ false
absent_waits id [] h = refl
absent_waits id (n ∷ rows) h = ground (arith, absent_waits id rows)

-- Marking a waiting row leaves one fewer.
mark_one :
    (now id : ℕ) (rows : List Notification)
    → unique id_of rows ≡ true
    → any (λ y. unsent y && y.id == id) rows ≡ true
    → length (
          select unsent
            (update_where (λ n. n.id == id) (λ n. record n { sent_at = some now }) rows))
        + 1
      ≡ length (select unsent rows)
mark_one now id [] u h = ground arith
mark_one now id (n ∷ rows) u h = elim (Bool-cases (n.id == id)) [
  | inl e ↦
      let same : n.id ≡ id = ground arith in
      let rest : any (λ x. x.id == id) rows ≡ false =
        subst (λ k. any (λ x. x.id == k) rows ≡ false) same (ground arith) in
      let gone : any (λ y. unsent y && y.id == id) rows ≡ false = absent_waits id rows rest in
      ground (arith, absent_mark now id rows, rest, gone)
  | inr e ↦ ground (arith, mark_one now id rows)
]

pub other_waits :
    (now id : ℕ) (rows : List Notification) (x : Notification)
    → (id == x.id) ≡ false
    → waits (update_where (λ n. n.id == id) (λ n. record n { sent_at = some now }) rows) x
      ≡ waits rows x
other_waits now id rows x ne =
    any-update_where (λ y. unsent y && y.id == x.id) (λ n. n.id == id)
      (λ n. record n { sent_at = some now }) rows
    ∙ any_congr (λ y. if y.id == id then false else unsent y && y.id == x.id)
        (λ y. unsent y && y.id == x.id) rows (λ y. ground arith)

pub swapped : (a b : ℕ) → (b == a) ≡ false → (a == b) ≡ false
swapped a b h = ground arith

pub length-append_one : (xs : List Event) (x : Event) → length (xs ++ x ∷ []) ≡ length xs + 1
length-append_one [] x = ground arith
length-append_one (y ∷ xs) x = ground (arith, length-append_one xs x)

-- The events that cannot be written among those of the waiting notifications.
pub unwritable : (ℕ → Bool) → List Notification → ℕ
unwritable writes rows = length (select (λ n. unsent n && not (writes n.id)) rows)

pub unwritable_le :
    (writes : ℕ → Bool) (rows : List Notification)
    → unwritable writes rows ≤ length (select unsent rows)
unfolding unwritable
unwritable_le writes [] = ground arith
unwritable_le writes (n ∷ rows) = ground (arith, unwritable_le writes rows)

absent_unwritable :
    (writes : ℕ → Bool) (now id : ℕ) (rows : List Notification)
    → any (λ n. n.id == id) rows ≡ false
    → unwritable writes (update_where (λ n. n.id == id) (λ n. record n { sent_at = some now }) rows)
      ≡ unwritable writes rows
unfolding unwritable
absent_unwritable writes now id [] h = refl
absent_unwritable writes now id (n ∷ rows) h = ground (arith, absent_unwritable writes now id rows)

pub mark_unwritable :
    (writes : ℕ → Bool) (now id : ℕ) (rows : List Notification)
    → unique id_of rows ≡ true
    → any (λ y. unsent y && y.id == id) rows ≡ true
    → unwritable writes (update_where (λ n. n.id == id) (λ n. record n { sent_at = some now }) rows)
        + (if writes id then 0 else 1)
      ≡ unwritable writes rows
unfolding unwritable
mark_unwritable writes now id [] u h = ground arith
mark_unwritable writes now id (n ∷ rows) u h = elim (Bool-cases (n.id == id)) [
  | inl e ↦
      let same : n.id ≡ id = ground arith in
      let rest : any (λ x. x.id == id) rows ≡ false =
        subst (λ k. any (λ x. x.id == k) rows ≡ false) same (ground arith) in
      let gone : any (λ y. unsent y && y.id == id) rows ≡ false = absent_waits id rows rest in
      let w : writes n.id ≡ writes id = ap writes same in
      ground (arith, absent_unwritable writes now id rows, rest, gone, w)
  | inr e ↦ ground (arith, mark_unwritable writes now id rows)
]

pub log_rows : (b : Bool) (n : Notification) (box : Outbox) → (log_event b n box).rows ≡ box.rows
unfolding log_event
log_rows true n box = refl
log_rows false n box = refl

-- Marking a waiting notification as sent, with its event or without.
pub marked :
    (b : Bool) (now : ℕ) (n : Notification) (box : Outbox)
    → unique id_of box.rows ≡ true
    → waits box.rows n ≡ true
    → (unique id_of (mark_sent now n.id (log_event b n box)).rows ≡ true)
      × (waiting (mark_sent now n.id (log_event b n box)) + 1 ≡ waiting box)
unfolding mark_sent
marked b now n box u h = rw (log_rows b n box) (
  unique-update_where id_of (λ x. x.id == n.id) (λ x. record x { sent_at = some now }) (λ x. refl)
      box.rows u,
  mark_one now n.id box.rows u h,
)

pub positive : (n : ℕ) → (suc n == 0) ≡ false
positive n = ground arith
