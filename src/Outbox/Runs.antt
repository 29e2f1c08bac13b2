-- ===== src/Outbox/Runs.antt =====
-- The runs of the sender (backend/app/tasks/outbox_tasks.py).
use big_bug.Prelude.{
  ℕ, zero, suc, ◌+◌, ◌≤◌, ◌<◌, ◌≡◌, refl, sym, ap, ◌∙◌, subst, inl, inr, Bool, true, false, some,
  List, ◌∷◌, arith, ltb, text_keys, number_keys, ◌==◌, Bool-cases, length, all, select, unique,
}
use big_bug.Outbox.{
  Notification, Outbox, returned, raised, unsent, pending, log_event, mark_sent, deliver_rows,
  send_batches, send_pending_outbox_task, Sending,
}
use big_bug.Outbox.Batches.{id_of, waits, pending-waits, unique-pending, length-pending}
use big_bug.Outbox.Marked.{waiting, unwritable, unwritable_le, marked, positive}
use big_bug.Outbox.Sent.{Delivered, Batch, rows_lem, went_through, raised-Stopped}

is_zero : (n : ℕ) → (n == 0) ≡ true → n ≡ 0
is_zero n e = ground arith

module _ (writes : ℕ → Bool) (now : ℕ) where
  -- What a run that has counted `before` deliveries has done. A run that returns has marked all that
  -- waited, with an event for each but for those whose event cannot be written. A run that raises has
  -- marked at least one without an event, and it too has an event for each of the others it marked.
  unfoldable pub Outcome : ℕ → Outbox → Sending → Type 0
  Outcome before box (returned delivered left) =
      (delivered ≡ before + waiting box)
      × (waiting left ≡ 0)
      × (length left.events + unwritable writes box.rows ≡ length box.events + waiting box)
  Outcome before box (raised left) =
      (unwritable writes left.rows < unwritable writes box.rows)
      × (length left.events + waiting left + unwritable writes box.rows
          ≡ length box.events + waiting box + unwritable writes left.rows)

  joined :
      (before n : ℕ) (box box' : Outbox) (r : Sending)
      → Delivered writes now n box box'
      → Outcome (before + n) box' r
      → Outcome before box r
  unfolding Outcome
  joined before n box box' (returned delivered left) d (a, b, c) =
      (grind (arith, a, d.fewer), b, grind (arith, c, d.balanced, d.fewer))
  joined before n box box' (raised left) d (a, b) =
      (grind (arith, a, d.no_more), grind (arith, b, d.balanced))

  finished :
      (before n : ℕ) (box box' : Outbox)
      → Delivered writes now n box box'
      → n ≡ waiting box
      → Outcome before box (returned (before + n) box')
  unfolding Outcome
  finished before n box box' d e =
      let le = unwritable_le writes box'.rows in
      let none_left : waiting box' ≡ 0 = grind (arith, d.fewer, e) in
      (ap (λ k. before + k) e, none_left, grind (arith, d.balanced, le, none_left))

  nothing_left :
      (before : ℕ) (box : Outbox) → waiting box ≡ 0 → Outcome before box (returned before box)
  unfolding Outcome
  nothing_left before box e =
      let le = unwritable_le writes box.rows in (grind (arith, e), e, grind (arith, e, le))

  batches_lem :
      (batch_size fuel before : ℕ) (box : Outbox)
      → 1 ≤ batch_size
      → waiting box < fuel
      → unique id_of box.rows ≡ true
      → (result : Sending) × (send_batches writes now batch_size fuel (before, box) ≡ some result)
        × Outcome before box result
  unfolding send_batches Outcome Batch
  batches_lem batch_size zero before box size enough u = ground arith
  batches_lem batch_size (suc fuel) before box size enough u =
      let rows = pending batch_size box in
      let p = deliver_rows writes now rows box in
      let batch =
        rows_lem writes now rows box u (unique-pending batch_size box u)
          (pending-waits batch_size box) in
      let all_of_them = length-pending batch_size box in
      elim (Bool-cases (length rows == 0)) [
        | inl e ↦ (
          returned before box,
          (rw e refl),
          nothing_left before box (sym (all_of_them (grind arith)) ∙ is_zero (length rows) e),
        )
        | inr e ↦ elim (Bool-cases p.0) [
          | inl stop ↦
              let s = raised-Stopped writes now (length rows) box p batch stop in
              (raised p.1, (rw e (rw stop refl)), (s.lost, s.balanced))
          | inr go ↦
              let d = went_through writes now (length rows) box p batch go in
              elim (Bool-cases (ltb (length rows) batch_size)) [
                | inl last ↦ (
                  returned (before + length rows) p.1,
                  (rw e (rw go (rw last refl))),
                  finished before (length rows) box p.1 d (all_of_them (grind arith)),
                )
                | inr full ↦
                    let (result, done, outcome) =
                      batches_lem batch_size fuel (before + length rows) p.1 size
                        (grind (arith, d.fewer)) d.ids in
                    (
                      result,
                      (rw e (rw go (rw full done))),
                      joined before (length rows) box p.1 result d outcome,
                    )
              ]
        ]
      ]

-- With unique ids and a batch size of at least one, the sender ends, whatever audit events can be
-- written. When it returns, it reports as delivered all notifications that waited, none waits
-- afterwards, and there is one more event for each of them but those whose event could not be written.
-- When it raises, fewer notifications with an event that cannot be written wait than before, and there
-- is one more event for each of the others that no longer wait.
pub send_pending_outbox_task_exact :
    (writes : ℕ → Bool) (now batch_size : ℕ) (box : Outbox)
    → 1 ≤ batch_size
    → unique id_of box.rows ≡ true
    → (result : Sending) × (send_pending_outbox_task writes now batch_size box ≡ some result)
      × Outcome writes now 0 box result
unfolding send_pending_outbox_task
send_pending_outbox_task_exact writes now batch_size box size u =
    batches_lem writes now batch_size (suc (waiting box)) 0 box size (grind arith) u

-- With unique ids, when two notifications or more are in the first batch and the audit event of the
-- first cannot be written, the sender ends and raises: that notification no longer waits, though there
-- is no event for it, and nothing else has changed.
pub send_pending_outbox_task_raises :
    (writes : ℕ → Bool) (now batch_size : ℕ) (n second : Notification) (rest : List Notification)
    (box : Outbox)
    → unique id_of box.rows ≡ true
    → pending batch_size box ≡ n ∷ second ∷ rest
    → writes n.id ≡ false
    → (send_pending_outbox_task writes now batch_size box ≡ some (raised (mark_sent now n.id box)))
      × ((mark_sent now n.id box).events ≡ box.events)
      × (length (select unsent (mark_sent now n.id box).rows) + 1 ≡ length (select unsent box.rows))
unfolding send_pending_outbox_task send_batches deliver_rows log_event
send_pending_outbox_task_raises writes now batch_size n second rest box u begun unwritten =
    let waits_now =
      subst (λ rows. all (waits box.rows) rows ≡ true) begun (pending-waits batch_size box) in
    let (_, fewer) = marked false now n box u (ground arith) in
    (
      rw (begun, unwritten, positive (suc (length rest)), positive (length rest)) refl,
      unfold mark_sent in refl,
      fewer,
    )
