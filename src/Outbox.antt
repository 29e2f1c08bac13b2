-- ===== src/Outbox.antt =====
-- The outbox of notifications (backend/app/models/notification_outbox.py): `outbox_write` of
-- backend/app/services/sync_engine.py and the sender of backend/app/tasks/outbox_tasks.py with
-- `AuditService.log_event` (backend/app/services/audit.py), which commits by itself and swallows its
-- errors. `writes` says for which notifications the audit event can be written. When it cannot,
-- `log_event` rolls the session back, which expires every row of the batch: setting `sent_at` still
-- works, but reading the next row of the batch raises, since it would have to be loaded again.
pub mod Batches
pub mod Marked
pub mod Sent
pub mod Runs
pub mod Written
mod Tests
use big_bug.Prelude.{
  ℕ, zero, suc, ◌+◌, ◌-◌, String, Bool, false, not, ◌&&◌, ◌||◌, Option, none, some, List, [], ◌∷◌,
  ◌++◌, ltb, leb, if◌then◌else◌, text_keys, number_keys, ◌==◌, is_some, length, any, select,
  update_where, Result, guard, ◌>>=◌, ◌>>◌, ok,
}

pub record Notification : Type 0 where
  pub id : ℕ
  pub dedup_key : String
  pub event_type : String
  pub created_at : ℕ
  pub sent_at : Option ℕ

-- The audit event of a delivery.
pub record Event : Type 0 where
  pub action : String
  pub resource_id : ℕ

pub record Outbox : Type 0 where
  pub rows : List Notification
  pub next_notification_id : ℕ
  pub events : List Event

pub data WriteError : Type 0 where
  missing_key : WriteError

unfoldable pub key_or_empty : Option String → String
key_or_empty none = ""
key_or_empty (some key) = key

unfoldable pub insert_or_skip : ℕ → String → String → Outbox → Outbox
insert_or_skip now event_type key box =
    if any (λ n. n.dedup_key == key) box.rows then box else record box {
      rows =
          box.rows
          ++ record {
            id = box.next_notification_id;
            dedup_key = key;
            event_type = event_type;
            created_at = now;
            sent_at = none;
          }
            ∷ [];
      next_notification_id = box.next_notification_id + 1;
    }

unfoldable pub outbox_write : ℕ → String → Option String → Outbox → Result WriteError Outbox
unfolding key_or_empty insert_or_skip
outbox_write now event_type dedup_key box = do
  guard (not (key_or_empty dedup_key == "")) missing_key
  ok (insert_or_skip now event_type (key_or_empty dedup_key) box)

abbrev pub unsent : Notification → Bool
unsent n = not (is_some n.sent_at)

-- `ORDER BY created_at, id`
abbrev pub comes_first : Notification → Notification → Bool
comes_first a b = ltb a.created_at b.created_at || a.created_at == b.created_at && leb a.id b.id

abbrev pub place : Notification → List Notification → List Notification
place n [] = n ∷ []
place n (x ∷ xs) = let rest = place n xs in if comes_first n x then n ∷ x ∷ xs else x ∷ rest

abbrev pub ordered : List Notification → List Notification
ordered [] = []
ordered (n ∷ rows) = place n (ordered rows)

abbrev pub take : ℕ → List Notification → List Notification
take n [] = []
take n (x ∷ xs) = let rest = take (n - 1) xs in if n == 0 then [] else x ∷ rest

unfoldable pub pending : ℕ → Outbox → List Notification
pending batch_size box = take batch_size (ordered (select unsent box.rows))

unfoldable pub log_event : Bool → Notification → Outbox → Outbox
log_event written n box =
    if written
    then record box {
      events = box.events ++ record { action = n.event_type; resource_id = n.id } ∷ [];
    }
    else box

unfoldable pub mark_sent : ℕ → ℕ → Outbox → Outbox
mark_sent now id box = record box {
  rows = update_where (λ n. n.id == id) (λ n. record n { sent_at = some now }) box.rows;
}

-- The count that the sender returns, or that it raised; with the outbox that is left.
pub data Sending : Type 0 where
  returned : ℕ → Outbox → Sending
  raised : Outbox → Sending

module _ (writes : ℕ → Bool) (now : ℕ) where
  abbrev pub deliver : Notification → Outbox → Outbox
  deliver n box = mark_sent now n.id (log_event (writes n.id) n box)

  -- Whether the batch has raised, and the outbox that it leaves.
  unfoldable pub deliver_rows : List Notification → Outbox → Bool × Outbox
  deliver_rows [] box = (false, box)
  deliver_rows (n ∷ rows) box =
      let rest = deliver_rows rows (deliver n box) in
      if writes n.id then rest else (not (length rows == 0), deliver n box)

  -- The loop on fuel: `none` when it runs out. The first component counts the deliveries.
  unfoldable pub send_batches : ℕ → ℕ → ℕ × Outbox → Option Sending
  send_batches batch_size zero st = none
  send_batches batch_size (suc fuel) (delivered, box) =
      let rows = pending batch_size box in
      let batch = deliver_rows rows box in
      let again = send_batches batch_size fuel (delivered + length rows, batch.1) in
      if length rows == 0
      then some (returned delivered box)
      else if batch.0
      then some (raised batch.1)
      else if ltb (length rows) batch_size
      then some (returned (delivered + length rows) batch.1)
      else again

  -- One round more than there are unsent rows is enough.
  unfoldable pub send_pending_outbox_task : ℕ → Outbox → Option Sending
  send_pending_outbox_task batch_size box =
      send_batches batch_size (suc (length (select unsent box.rows))) (0, box)
