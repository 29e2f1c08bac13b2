-- ===== src/Outbox/Sent.antt =====
-- What a batch of the sender delivers (backend/app/tasks/outbox_tasks.py).
use big_bug.Prelude.{
  ℕ, suc, ◌+◌, ◌≤◌, ◌<◌, ◌≡◌, refl, ap, Bool, true, false, not, some, List, [], ◌∷◌, arith,
  if◌then◌else◌, text_keys, number_keys, ◌==◌, length, any, all, update_where, unique,
}
use big_bug.Outbox.{Notification, Outbox, log_event, mark_sent, deliver, deliver_rows}
use big_bug.Outbox.Batches.{id_of, waits}
use big_bug.Outbox.Marked.{
  waiting, length-append_one, unwritable, log_rows, marked, mark_unwritable, other_waits, swapped,
  positive,
}

module _ (writes : ℕ → Bool) (now : ℕ) where
  -- Every notification that no longer waits has its event, but for those whose event cannot be written.
  abbrev pub Balanced : Outbox → Outbox → Type 0
  Balanced before after =
      length after.events + waiting after + unwritable writes before.rows
      ≡ length before.events + waiting before + unwritable writes after.rows

  -- What `n` deliveries did, and what a batch that raised did.
  pub record Delivered (n : ℕ) (before after : Outbox) : Type 0 where
    pub ids : unique id_of after.rows ≡ true
    pub fewer : waiting after + n ≡ waiting before
    pub no_more : unwritable writes after.rows ≤ unwritable writes before.rows
    pub balanced : Balanced before after

  pub record Stopped (before after : Outbox) : Type 0 where
    pub lost : unwritable writes after.rows < unwritable writes before.rows
    pub balanced : Balanced before after

  unfoldable pub Batch : ℕ → Outbox → Bool × Outbox → Type 0
  Batch n before (false, after) = Delivered n before after
  Batch n before (true, after) = Stopped before after

  log_length :
      (b : Bool) (n : Notification) (box : Outbox)
      → length (log_event b n box).events ≡ length box.events + (if b then 1 else 0)
  unfolding log_event
  log_length true n box = length-append_one box.events _
  log_length false n box = ground arith

  unwritable_left :
      (n : Notification) (box : Outbox)
      → unique id_of box.rows ≡ true
      → waits box.rows n ≡ true
      → unwritable writes (deliver writes now n box).rows + (if writes n.id then 0 else 1)
        ≡ unwritable writes box.rows
  unfolding mark_sent
  unwritable_left n box u h =
      rw (log_rows (writes n.id) n box) (mark_unwritable writes now n.id box.rows u h)

  balance :
      (b : Bool) (e e' w w' k k' : ℕ)
      → e' ≡ e + (if b then 1 else 0)
      → w' + 1 ≡ w
      → k' + (if b then 0 else 1) ≡ k
      → e' + w' + k ≡ e + w + k'
  balance true e e' w w' k k' a b c = ground arith
  balance false e e' w w' k k' a b c = ground arith

  at_most : (b : Bool) (k k' : ℕ) → k' + (if b then 0 else 1) ≡ k → k' ≤ k
  at_most true k k' e = ground arith
  at_most false k k' e = ground arith

  one_lem :
      (n : Notification) (box : Outbox)
      → unique id_of box.rows ≡ true
      → waits box.rows n ≡ true
      → Delivered 1 box (deliver writes now n box)
  unfolding mark_sent
  one_lem n box u h =
      let (ids, fewer) = marked (writes n.id) now n box u h in
      record {
        ids = ids;
        fewer = fewer;
        no_more = at_most (writes n.id) _ _ (unwritable_left n box u h);
        balanced =
            balance (writes n.id) _ _ _ _ _ _ (log_length (writes n.id) n box) fewer
              (unwritable_left n box u h);
      }

  others_wait :
      (n : Notification) (rows : List Notification) (box : Outbox)
      → any (λ x. x.id == n.id) rows ≡ false
      → all (waits box.rows) rows ≡ true
      → all (waits (deliver writes now n box).rows) rows ≡ true
  unfolding mark_sent
  others_wait n [] box a h = refl
  others_wait n (x ∷ rows) box a h =
      let kept = other_waits now n.id box.rows x (swapped n.id x.id (ground arith)) in
      rw (log_rows (writes n.id) n box) (
        ground (
          arith,
          kept,
          ap
              (λ r.
                all
                  (waits
                    (update_where (λ y. y.id == n.id) (λ y. record y { sent_at = some now }) r))
                  rows)
              (log_rows (writes n.id) n box),
          others_wait n rows box,
        ))

  -- A delivery whose event was written, and the rest of the batch.
  after_one :
      (n : ℕ) (before mid : Outbox) (rest : Bool × Outbox)
      → Delivered 1 before mid
      → unwritable writes mid.rows ≡ unwritable writes before.rows
      → Batch n mid rest
      → Batch (suc n) before rest
  unfolding Batch
  after_one n before mid (false, after) one same rest = record {
    ids = rest.ids;
    fewer = grind (arith, one.fewer, rest.fewer);
    no_more = grind (arith, one.no_more, rest.no_more);
    balanced = grind (arith, one.balanced, rest.balanced);
  }
  after_one n before mid (true, after) one same rest = record {
    lost = grind (arith, rest.lost, same);
    balanced = grind (arith, one.balanced, rest.balanced);
  }

  -- A delivery whose event could not be written.
  stopped_after :
      (n : Notification) (rows : List Notification) (box after : Outbox)
      → Delivered 1 box after
      → unwritable writes after.rows + 1 ≡ unwritable writes box.rows
      → Batch (length (n ∷ rows)) box (not (length rows == 0), after)
  unfolding Batch
  stopped_after n [] box after one gone = one
  stopped_after n (x ∷ rows) box after one gone =
      rw (positive (length rows)) (record { lost = grind (arith, gone); balanced = one.balanced })

  pub rows_lem :
      (rows : List Notification) (box : Outbox)
      → unique id_of box.rows ≡ true
      → unique id_of rows ≡ true
      → all (waits box.rows) rows ≡ true
      → Batch (length rows) box (deliver_rows writes now rows box)
  unfolding deliver_rows Batch
  rows_lem [] box u v h = record {
    ids = u;
    fewer = ground arith;
    no_more = ground arith;
    balanced = refl;
  }
  rows_lem (n ∷ rows) box u v h =
      let one = one_lem n box u (ground arith) in
      let left = unwritable_left n box u (ground arith) in
      by_written (writes n.id) refl one left (
        rows_lem rows (deliver writes now n box) one.ids (ground arith)
          (others_wait n rows box (ground arith) (ground arith)))
    where
      by_written :
          (b : Bool)
          → writes n.id ≡ b
          → Delivered 1 box (deliver writes now n box)
          → unwritable writes (deliver writes now n box).rows + (if b then 0 else 1)
            ≡ unwritable writes box.rows
          → Batch
              (length rows)
              (deliver writes now n box)
              (deliver_rows writes now rows (deliver writes now n box))
          → Batch (length (n ∷ rows)) box (
              if b
              then deliver_rows writes now rows (deliver writes now n box)
              else (not (length rows == 0), deliver writes now n box))
      by_written true e one left rest = after_one (length rows) box _ _ one (ground arith) rest
      by_written false e one left rest = stopped_after n rows box _ one left

  pub went_through :
      (n : ℕ) (before : Outbox) (p : Bool × Outbox)
      → Batch n before p
      → p.0 ≡ false
      → Delivered n before p.1
  unfolding Batch
  went_through n before (false, after) d e = d
  went_through n before (true, after) d e = cc

  pub raised-Stopped :
      (n : ℕ) (before : Outbox) (p : Bool × Outbox)
      → Batch n before p
      → p.0 ≡ true
      → Stopped before p.1
  unfolding Batch
  raised-Stopped n before (false, after) d e = cc
  raised-Stopped n before (true, after) d e = d
