-- ===== src/SyncRuns/Tracking.antt =====
-- The wrapper of a task body (backend/app/tasks/run_tracking.py): claiming a row at the start,
-- pulses while the body runs, and the outcome at the end. `Tracked` is what a live wrapper holds.
use big_bug.Prelude.{
  ℕ, ◌+◌, String, Bool, ◌&&◌, Option, none, some, [], ◌∷◌, ◌++◌, leb, if◌then◌else◌, text_keys,
  number_keys, ◌==◌, find, update_where,
}
use big_bug.SyncRuns.{
  Settings, Store, SyncRun, RunStatus, queued, running, succeeded, failed, failed_permanent,
  Payload, has_status, newest, same_text, same_id,
}

pub record Task : Type 0 where
  pub name : String
  pub entity_type : Option String
  pub entity_id : Option ℕ
  pub payload : Option Payload

-- `run_id`, `attempts` and `max_attempts`, read when the run was claimed
pub record Tracked : Type 0 where
  pub run_id : ℕ
  pub attempts : ℕ
  pub max_attempts : ℕ

abbrev pub tracked : SyncRun → Tracked
tracked r = record { run_id = r.id; attempts = r.attempts; max_attempts = r.max_attempts }

abbrev pub started : ℕ → SyncRun → SyncRun
started now r = record r {
  status = running;
  attempts = r.attempts + 1;
  heartbeat_at = some now;
  started_at = some now;
  error = none;
  finished_at = none;
}

abbrev pub claimed : Task → ℕ → SyncRun → SyncRun
claimed task now r = record (started now r) {
  entity_type = task.entity_type;
  entity_id = task.entity_id;
}

abbrev pub fresh_run : Settings → Task → ℕ → ℕ → SyncRun
fresh_run settings task now id = record {
  id = id;
  task_name = task.name;
  entity_type = task.entity_type;
  entity_id = task.entity_id;
  status = running;
  attempts = 1;
  max_attempts = settings.task_max_retries;
  payload = task.payload;
  heartbeat_at = some now;
  started_at = some now;
  finished_at = none;
  error = none;
  created_at = some now;
}

abbrev pub awaits : Task → SyncRun → Bool
awaits task r = r.task_name == task.name && has_status queued r

abbrev pub retryable : Task → SyncRun → Bool
retryable task r =
    r.task_name == task.name
    && (same_text r.entity_type task.entity_type
        && (same_id r.entity_id task.entity_id && has_status failed r))

abbrev pub is_row : ℕ → SyncRun → Bool
is_row id r = r.id == id

-- The queued row that a worker reads before it tries to claim it.
unfoldable pub select_queued : Task → Store → Option SyncRun
select_queued task s = newest (awaits task) s.runs

abbrev pub save_run : SyncRun → Store → Store
save_run r s = record s { runs = update_where (is_row r.id) (λ _. r) s.runs }

-- The failed row that a worker without a claim reads.
unfoldable pub select_failed : Task → Store → Option SyncRun
select_failed task s = newest (retryable task) s.runs

-- The UPDATE of a row that was read: it has no guard, and writes the attempts counted from the row as
-- it was read.
abbrev pub write_started : ℕ → SyncRun → Store → Store
write_started now r s = record s {
  runs =
      update_where (is_row r.id)
        (λ x. record x {
          status = running;
          attempts = r.attempts + 1;
          heartbeat_at = some now;
          started_at = some now;
          error = none;
          finished_at = none;
        })
        s.runs;
}

-- Reusing the failed row that was read, or else a fresh row.
unfoldable pub reuse_or_create : Settings → Task → ℕ → Option SyncRun → Store → SyncRun × Store
reuse_or_create settings task now (some r) s = (started now r, write_started now r s)
reuse_or_create settings task now none s =
    let r = fresh_run settings task now s.next_run_id in
    (r, record s { runs = s.runs ++ r ∷ []; next_run_id = s.next_run_id + 1 })

-- The row of that id while it is still queued: the guard of the UPDATE.
abbrev pub still_queued : ℕ → Store → Option SyncRun
still_queued id s = find (λ r. r.id == id && has_status queued r) s.runs

unfoldable pub claim_or :
    Settings → Task → ℕ → Option SyncRun → Option SyncRun → Store → SyncRun × Store
unfolding reuse_or_create
claim_or settings task now none read s = reuse_or_create settings task now read s
claim_or settings task now (some r) read s = (claimed task now r, save_run (claimed task now r) s)

-- What follows the two selections. Other workers may have changed the store after either of them, so
-- the queued id and the failed row stand for what this worker has read.
unfoldable pub adopt : Settings → Task → ℕ → Option ℕ → Option SyncRun → Store → SyncRun × Store
unfolding claim_or reuse_or_create
adopt settings task now none read s = reuse_or_create settings task now read s
adopt settings task now (some queued_id) read s =
    claim_or settings task now (still_queued queued_id s) read s

unfoldable pub id_of : Option SyncRun → Option ℕ
id_of none = none
id_of (some r) = some r.id

-- The call without a change in between.
unfoldable pub _claim_or_create_run : Settings → Task → ℕ → Store → SyncRun × Store
unfolding id_of select_failed
_claim_or_create_run settings task now s =
    adopt settings task now (id_of (select_queued task s)) (select_failed task s) s

abbrev pub live_row : ℕ → SyncRun → Bool
live_row id r = r.id == id && has_status running r

-- One pulse of the heartbeat.
unfoldable pub pulse : ℕ → ℕ → Store → Store
pulse now run_id s = record s {
  runs = update_where (live_row run_id) (λ r. record r { heartbeat_at = some now }) s.runs;
}

unfoldable pub record_success : ℕ → Tracked → Store → Store
record_success now t s = record s {
  runs =
      update_where (live_row t.run_id)
        (λ r. record r { status = succeeded; finished_at = some now }) s.runs;
}

unfoldable pub final_status : Tracked → RunStatus
final_status t = if leb t.max_attempts t.attempts then failed_permanent else failed

unfoldable pub record_failure : ℕ → String → Tracked → Store → Store
record_failure now error t s = record s {
  runs =
      update_where (live_row t.run_id)
        (λ r. record r { status = final_status t; error = some error; finished_at = some now })
        s.runs;
}
