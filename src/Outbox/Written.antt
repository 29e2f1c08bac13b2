-- ===== src/Outbox/Written.antt =====
-- Writing to the outbox (`outbox_write` in backend/app/services/sync_engine.py).
use big_bug.Prelude.{
  ℕ, String, ◌≡◌, refl, ap, subst, inl, inr, true, not, Option, text_keys, number_keys, ◌==◌,
  Bool-cases, any, any-append, unique, unique-append_one, guard, ok_of_bind, ok_injective, ok,
}
use big_bug.Outbox.{Notification, Outbox, key_or_empty, insert_or_skip, outbox_write, missing_key}

abbrev pub key_of : Notification → String
key_of n = n.dedup_key

same_key : (key : String) → (key == key) ≡ true
same_key key = (text_keys.agrees key key).1 refl

insert_again :
    (now later : ℕ) (event_type other_type key : String) (box : Outbox)
    → insert_or_skip later other_type key (insert_or_skip now event_type key box)
      ≡ insert_or_skip now event_type key box
unfolding insert_or_skip
insert_again now later event_type other_type key box =
    elim (Bool-cases (any (λ n. n.dedup_key == key) box.rows)) [
      | inl e ↦ rw e (rw e refl)
      | inr e ↦ rw e (
          rw (any-append (λ (n : Notification). n.dedup_key == key) box.rows _)
            (rw e (rw (same_key key) refl)))
    ]

insert_unique :
    (now : ℕ) (event_type key : String) (box : Outbox)
    → unique key_of box.rows ≡ true
    → unique key_of (insert_or_skip now event_type key box).rows ≡ true
unfolding insert_or_skip
insert_unique now event_type key box u =
    elim (Bool-cases (any (λ n. n.dedup_key == key) box.rows)) [
      | inl e ↦ rw e u
      | inr e ↦ rw e (unique-append_one key_of box.rows _ u e)
    ]

-- A write that succeeds keeps the keys of the notifications unique, and writing an event of any type
-- under the same key again, at any time, changes nothing.
pub outbox_write-outbox_write :
    (now later : ℕ) (event_type other_type : String) (dedup_key : Option String) (box : Outbox)
    {written : Outbox}
    → outbox_write now event_type dedup_key box ≡ ok written
    → unique key_of box.rows ≡ true
    → (unique key_of written.rows ≡ true)
      × (outbox_write later other_type dedup_key written ≡ ok written)
unfolding outbox_write
outbox_write-outbox_write now later event_type other_type dedup_key box {written} h u =
    let key = key_or_empty dedup_key in
    let (_, given, e) =
      ok_of_bind (guard (not (key == "")) missing_key)
        (λ _. ok (insert_or_skip now event_type key box)) h in
    let it = ok_injective e in
    (
      subst (λ (b : Outbox). unique key_of b.rows ≡ true) it
          (insert_unique now event_type key box u),
      rw given (
          ap ok (
            subst (λ b. insert_or_skip later other_type key b ≡ b) it
              (insert_again now later event_type other_type key box))),
    )
