-- ===== src/SyncRuns/Admin.antt =====
-- The admin endpoints over tracked runs (backend/app/api/sync_runs.py). `known` stands for the task
-- functions that `_resolve_task` finds in the task modules. An HTTP error carries its status code.
-- The audit events are left out.
use big_bug.Prelude.{
  ℕ, ◌+◌, String, Bool, true, false, not, ◌&&◌, ◌||◌, Option, none, some, List, [], ◌∷◌,
  if◌then◌else◌, text_keys, number_keys, ◌==◌, length, select, find, Result, guard, ◌>>=◌, ◌>>◌, ok,
  err,
}
use big_bug.SyncRuns.{
  Settings, Store, SyncRun, RunStatus, queued, running, succeeded, failed, failed_permanent,
  superseded, Payload, Argument, Reachable, enqueue, has_status, is_stuck, same_text, same_id,
}
use big_bug.SyncRuns.Tracking.{save_run}

pub data HttpError : Type 0 where
  http : ℕ → HttpError

abbrev pub run_not_found : HttpError
run_not_found = http 404

abbrev pub run_conflict : HttpError
run_conflict = http 409

abbrev pub Response : Type 0 → Type 0
Response A = Result HttpError A

-- What a call answers, and the store it leaves: an error after a commit does not take it back.
abbrev pub Answer : Type 0 → Type 0
Answer A = Response A × Store

abbrev pub recoverable : RunStatus → Bool
recoverable failed = true
recoverable failed_permanent = true
recoverable _ = false

unfoldable pub args_of : Option Payload → List Argument
args_of none = []
args_of (some p) = elim p.args [ none ↦ [] | some xs ↦ xs ]

unfoldable pub kwargs_of : Option Payload → List (String × Argument)
kwargs_of none = []
kwargs_of (some p) = elim p.kwargs [ none ↦ [] | some xs ↦ xs ]

unfoldable pub status_text : RunStatus → String
status_text queued = "queued"
status_text running = "running"
status_text succeeded = "succeeded"
status_text failed = "failed"
status_text failed_permanent = "failed_permanent"
status_text superseded = "superseded"

-- `if value:` on an optional text
abbrev pub given : Option String → String → Bool
given none actual = true
given (some wanted) actual = wanted == "" || actual == wanted

-- `if entity_type:` against a nullable column
abbrev pub given_column : Option String → Option String → Bool
given_column none actual = true
given_column (some wanted) actual = wanted == "" || same_text actual (some wanted)

abbrev pub given_id : Option ℕ → Option ℕ → Bool
given_id none actual = true
given_id (some wanted) actual = same_id actual (some wanted)

abbrev run_or_404 : Option SyncRun → Response SyncRun
run_or_404 none = err run_not_found
run_or_404 (some r) = ok r

module _ (settings : Settings) (known : String → Bool) where
  unfoldable pub _get_run : Store → ℕ → Response SyncRun
  _get_run s run_id = run_or_404 (find (λ r. r.id == run_id) s.runs)

  unfoldable pub _reenqueue : Reachable → ℕ → SyncRun → Store → Response Store
  unfolding args_of kwargs_of
  _reenqueue up now run s = do
    guard (known run.task_name) run_conflict
    ok (
        enqueue settings up now run.task_name (args_of run.payload) (kwargs_of run.payload)
          run.entity_type run.entity_id s)

  abbrev stuck_run : ℕ → SyncRun → Bool
  stuck_run now r = is_stuck settings now r.status r.heartbeat_at r.created_at

  -- The rows in the order of the table; the endpoint lists them from the newest on.
  unfoldable pub list_sync_runs :
      ℕ → Option String → Option String → Option ℕ → Bool → Store → List SyncRun
  unfolding status_text
  list_sync_runs now run_status entity_type entity_id stuck s =
      select (λ r. not stuck || stuck_run now r)
        (select
          (λ r.
            given run_status (status_text r.status)
            && (given_column entity_type r.entity_type && given_id entity_id r.entity_id))
          s.runs)

  unfoldable pub retry_sync_run : Reachable → ℕ → ℕ → Store → Response (SyncRun × Store)
  retry_sync_run up now run_id s = do
    run ← _get_run s run_id
    guard (recoverable run.status) run_conflict
    s' ← _reenqueue up now run s
    ok (run, s')

  -- One round of the loop: a run that cannot be re-enqueued is logged and skipped.
  unfoldable pub retry_one : Response Store → ℕ × Store → ℕ × Store
  retry_one (err e) (retried, s) = (retried, s)
  retry_one (ok s') (retried, s) = (retried + 1, s')

  unfoldable pub retry_runs : Reachable → ℕ → List SyncRun → ℕ × Store → ℕ × Store
  unfolding retry_one
  retry_runs up now [] st = st
  retry_runs up now (r ∷ runs) st = retry_runs up now runs (retry_one (_reenqueue up now r st.1) st)

  pub record Batch : Type 0 where
    pub retried : ℕ
    pub total_failed_permanent : ℕ

  unfoldable pub retry_all_failed : Reachable → ℕ → Store → Batch × Store
  unfolding retry_runs
  retry_all_failed up now s =
      let runs = select (has_status failed_permanent) s.runs in
      let (retried, s') = retry_runs up now runs (0, s) in
      (record { retried = retried; total_failed_permanent = length runs }, s')

  unfoldable pub answer_with : SyncRun → Store → Response Store → Answer SyncRun
  answer_with run s (err e) = (err e, s)
  answer_with run s (ok s') = (ok run, s')

  abbrev pub supersede : SyncRun → SyncRun
  supersede r = record r { status = superseded }

  -- The row is superseded and committed before the task is enqueued again.
  unfoldable pub requeue_run : Reachable → ℕ → SyncRun → Store → Answer SyncRun
  unfolding answer_with
  requeue_run up now run s =
      if stuck_run now run
      then answer_with (supersede run) (save_run (supersede run) s)
          (_reenqueue up now run (save_run (supersede run) s))
      else (err run_conflict, s)

  unfoldable pub requeue_found : Reachable → ℕ → Response SyncRun → Store → Answer SyncRun
  unfolding requeue_run
  requeue_found up now (err e) s = (err e, s)
  requeue_found up now (ok run) s = requeue_run up now run s

  unfoldable pub requeue_sync_run : Reachable → ℕ → ℕ → Store → Answer SyncRun
  unfolding requeue_found
  requeue_sync_run up now run_id s = requeue_found up now (_get_run s run_id) s
