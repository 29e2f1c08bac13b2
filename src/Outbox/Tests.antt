-- ===== src/Outbox/Tests.antt =====
-- Two notifications that wait, and one that was sent.
use big_bug.Prelude.{
  ◌+◌, ◌≡◌, refl, true, none, some, [], ◌∷◌, arith, text_keys, number_keys, ◌==◌, length, select,
  unique, ok, err,
}
use big_bug.Outbox.{
  Notification, Outbox, Sending, raised, mark_sent, unsent, pending, send_pending_outbox_task,
  outbox_write, missing_key, key_or_empty, insert_or_skip,
}
use big_bug.Outbox.Written.{key_of, outbox_write-outbox_write}
use big_bug.Outbox.Runs.{Outcome, send_pending_outbox_task_exact, send_pending_outbox_task_raises}

abbrev drift : Notification
drift = record {
  id = 1;
  dedup_key = "docker-drift:1";
  event_type = "reconciliation.drift";
  created_at = 20;
  sent_at = none;
}

abbrev poison : Notification
poison = record {
  id = 2;
  dedup_key = "reaper:poison:a";
  event_type = "task_reap_poison";
  created_at = 10;
  sent_at = none;
}

abbrev old : Notification
old = record {
  id = 3;
  dedup_key = "docker-drift:2";
  event_type = "reconciliation.drift";
  created_at = 5;
  sent_at = some 6;
}

abbrev box : Outbox
box = record { rows = drift ∷ poison ∷ old ∷ []; next_notification_id = 4; events = [] }

-- The older one comes first.
oldest_first : pending 1 box ≡ poison ∷ []
unfolding pending
oldest_first = refl

same_key_skipped : outbox_write 30 "reconciliation.drift" (some "docker-drift:1") box ≡ ok box
unfolding outbox_write
same_key_skipped = refl

no_key_refused : outbox_write 30 "reconciliation.drift" none box ≡ err missing_key
unfolding outbox_write
no_key_refused = refl

-- One at a time, with an event that cannot be written: nothing raises.
send_pending_outbox_task_exact_example :
    (result : Sending) × (send_pending_outbox_task (λ id. id == 1) 40 1 box ≡ some result)
    × Outcome (λ id. id == 1) 40 0 box result
send_pending_outbox_task_exact_example =
    send_pending_outbox_task_exact (λ id. id == 1) 40 1 box (ground arith) refl

both_in_one_batch : pending 2 box ≡ poison ∷ drift ∷ []
unfolding pending
both_in_one_batch = refl

send_pending_outbox_task_raises_example :
    (send_pending_outbox_task (λ id. id == 1) 40 2 box ≡ some (raised (mark_sent 40 2 box)))
    × ((mark_sent 40 2 box).events ≡ box.events)
    × (length (select unsent (mark_sent 40 2 box).rows) + 1 ≡ length (select unsent box.rows))
send_pending_outbox_task_raises_example =
    send_pending_outbox_task_raises (λ id. id == 1) 40 2 poison drift [] box refl both_in_one_batch
      refl

abbrev noted : Outbox
noted = record {
  rows =
      drift
      ∷ poison
      ∷ old
      ∷ record {
        id = 4;
        dedup_key = "docker-drift:9";
        event_type = "reconciliation.drift";
        created_at = 30;
        sent_at = none;
      }
      ∷ [];
  next_notification_id = 5;
  events = [];
}

outbox_write-outbox_write_example :
    (unique key_of noted.rows ≡ true)
    × (outbox_write 31 "reconciliation.drift" (some "docker-drift:9") noted ≡ ok noted)
unfolding outbox_write key_or_empty insert_or_skip
outbox_write-outbox_write_example =
    outbox_write-outbox_write 30 31 "reconciliation.drift" "reconciliation.drift"
      (some "docker-drift:9") box {written = noted} refl refl
