-- ===== src/SyncRuns.antt =====
-- Tracked runs of background tasks (backend/app/models/sync_run.py, backend/app/tasks/run_tracking.py
-- and backend/app/tasks/enqueue.py). A time is a count of microseconds, so that comparing ages needs
-- no rounding; the JSON arguments of a task are numbers and texts.
pub mod Tracking
pub mod Admin
pub mod Kept
pub mod Steps
pub mod Claims
pub mod Drain
mod Tests
use big_bug.Prelude.{
  ℕ, ◌+◌, ◌*◌, String, Bool, true, false, Option, none, some, List, [], ◌∷◌, ◌++◌, leb,
  if◌then◌else◌, text_keys, number_keys, ◌==◌,
}

pub data RunStatus : Type 0 where
  queued running succeeded failed failed_permanent superseded : RunStatus

abbrev pub same_status : RunStatus → RunStatus → Bool
same_status queued queued = true
same_status running running = true
same_status succeeded succeeded = true
same_status failed failed = true
same_status failed_permanent failed_permanent = true
same_status superseded superseded = true
same_status _ _ = false

pub data Argument : Type 0 where
  number : ℕ → Argument
  text : String → Argument

-- `{"args": [...], "kwargs": {...}}`; a missing key is `none`.
pub record Payload : Type 0 where
  pub args : Option (List Argument)
  pub kwargs : Option (List (String × Argument))

pub record SyncRun : Type 0 where
  pub id : ℕ
  pub task_name : String
  pub entity_type : Option String
  pub entity_id : Option ℕ
  pub status : RunStatus
  pub attempts : ℕ
  pub max_attempts : ℕ
  pub payload : Option Payload
  pub heartbeat_at : Option ℕ
  pub started_at : Option ℕ
  pub finished_at : Option ℕ
  pub error : Option String
  pub created_at : Option ℕ

pub record Settings : Type 0 where
  pub task_max_retries : ℕ
  pub sync_stuck_after_minutes : ℕ

-- A message that the broker has accepted.
pub record Message : Type 0 where
  pub task : String
  pub message_args : List Argument
  pub message_kwargs : List (String × Argument)

pub record Store : Type 0 where
  pub runs : List SyncRun
  pub next_run_id : ℕ
  pub published : List Message

-- Whether the database and the broker accept what a call sends them.
pub record Reachable : Type 0 where
  pub database : Bool
  pub broker : Bool

abbrev pub has_status : RunStatus → SyncRun → Bool
has_status s r = same_status r.status s

abbrev pub age_reached : Settings → ℕ → ℕ → Bool
age_reached settings now since = leb (since + settings.sync_stuck_after_minutes * 60 * 1000000) now

waited : Settings → ℕ → Option ℕ → Bool
waited settings now none = false
waited settings now (some since) = age_reached settings now since

-- Both branches measure an age; a queued run has its creation time, a running one its heartbeat.
unfoldable pub is_stuck : Settings → ℕ → RunStatus → Option ℕ → Option ℕ → Bool
unfolding waited
is_stuck settings now queued heartbeat_at created_at = waited settings now created_at
is_stuck settings now running heartbeat_at created_at = waited settings now heartbeat_at
is_stuck settings now _ heartbeat_at created_at = false

abbrev later : SyncRun → Option SyncRun → Option SyncRun
later r none = some r
later r (some x) = if leb x.id r.id then some r else some x

-- `ORDER BY id DESC LIMIT 1`
abbrev pub newest : (SyncRun → Bool) → List SyncRun → Option SyncRun
newest p [] = none
newest p (r ∷ rows) = let rest = newest p rows in if p r then later r rest else rest

abbrev pub same_text : Option String → Option String → Bool
same_text none none = true
same_text (some a) (some b) = a == b
same_text _ _ = false

abbrev pub same_id : Option ℕ → Option ℕ → Bool
same_id none none = true
same_id (some a) (some b) = a == b
same_id _ _ = false

abbrev pub queued_run : Settings → ℕ → ℕ → String → Option String → Option ℕ → Payload → SyncRun
queued_run settings now id name entity_type entity_id payload = record {
  id = id;
  task_name = name;
  entity_type = entity_type;
  entity_id = entity_id;
  status = queued;
  attempts = 0;
  max_attempts = settings.task_max_retries;
  payload = some payload;
  heartbeat_at = none;
  started_at = none;
  finished_at = none;
  error = none;
  created_at = some now;
}

abbrev pub write_queued : Bool → SyncRun → Store → Store
write_queued false run s = s
write_queued true run s = record s { runs = s.runs ++ run ∷ []; next_run_id = s.next_run_id + 1 }

abbrev pub publish : Bool → Message → Store → Store
publish false message s = s
publish true message s = record s { published = s.published ++ message ∷ [] }

-- The queued row first, then the message; a failure of either is logged and dropped.
unfoldable pub enqueue :
    Settings
    → Reachable
    → ℕ
    → String
    → List Argument
    → List (String × Argument)
    → Option String
    → Option ℕ
    → Store
    → Store
enqueue settings up now name args kwargs entity_type entity_id s =
    publish up.broker (record { task = name; message_args = args; message_kwargs = kwargs })
      (write_queued up.database
        (queued_run settings now s.next_run_id name entity_type entity_id
          (record { args = some args; kwargs = some kwargs }))
        s)
