-- ===== src/SyncRuns/Tests.antt =====
-- A few runs of one task, and the theorems at these inputs.
use big_bug.Prelude.{
  ℕ, String, ◌≡◌, refl, ◌≢◌, Bool, true, false, none, some, [], ◌∷◌, ◌++◌, Memᴰ, arith, text_keys,
  number_keys, ◌==◌, length, select,
}
use big_bug.SyncRuns.{
  Settings, Store, SyncRun, queued, failed, failed_permanent, number, Reachable, enqueue,
  queued_run, is_stuck, has_status,
}
use big_bug.SyncRuns.Tracking.{
  Tracked, tracked, Task, adopt, reuse_or_create, claim_or, _claim_or_create_run, claimed,
  record_failure, final_status,
}
use big_bug.SyncRuns.Admin.{retry_all_failed}
use big_bug.SyncRuns.Kept.{IsTracked}
use big_bug.SyncRuns.Kept.Starts.{Unchanged}
use big_bug.SyncRuns.Steps.{here, next, began, fails}
use big_bug.SyncRuns.Steps.Laws.{Reach-IsTracked, Steady, Undisturbed}
use big_bug.SyncRuns.Claims.{adopt-adopt_distinct, enqueue-claim_or_create_run}
use big_bug.SyncRuns.Drain.{retry_all_failed_counts}

abbrev defaults : Settings
defaults = record { task_max_retries = 3; sync_stuck_after_minutes = 30 }

abbrev online : Reachable
online = record { database = true; broker = true }

abbrev is_known : String → Bool
is_known name = name == "sync_group_task"

abbrev sync_group : ℕ → Task
sync_group id = record {
  name = "sync_group_task";
  entity_type = some "sync_group";
  entity_id = some id;
  payload = none;
}

abbrev no_runs : Store
no_runs = record { runs = []; next_run_id = 1; published = [] }

no_runs-IsTracked : IsTracked [] no_runs
no_runs-IsTracked = record {
  rows = refl;
  ids_unique = refl;
  ids_drawn = refl;
  live_unique = refl;
  live_held = refl;
}

abbrev one_queued : Store
one_queued = record no_runs {
  runs =
      queued_run defaults 5 1 "sync_group_task" none none
        (record { args = some (number 7 ∷ []); kwargs = some [] })
      ∷ [];
  next_run_id = 2;
}

one_queued-IsTracked : IsTracked [] one_queued
one_queued-IsTracked = record {
  rows = refl;
  ids_unique = refl;
  ids_drawn = refl;
  live_unique = refl;
  live_held = refl;
}

abbrev lost_run : SyncRun
lost_run = record {
  id = 1;
  task_name = "sync_group_task";
  entity_type = some "sync_group";
  entity_id = some 7;
  status = failed_permanent;
  attempts = 3;
  max_attempts = 3;
  payload = some (record { args = some (number 7 ∷ []); kwargs = some [] });
  heartbeat_at = some 10;
  started_at = some 10;
  finished_at = some 20;
  error = some "TimeoutError";
  created_at = some 5;
}

-- A row is reused until its attempts are spent.
abbrev nearly_spent : Tracked
nearly_spent = record { run_id = 1; attempts = 2; max_attempts = 3 }

abbrev spent : Tracked
spent = record nearly_spent { attempts = 3 }

spends_the_budget : (final_status nearly_spent ≡ failed) × (final_status spent ≡ failed_permanent)
unfolding final_status
spends_the_budget = (refl, refl)

waits_too_long :
    (is_stuck defaults 1800000005 queued none (some 5) ≡ true)
    × (is_stuck defaults 1800000004 queued none (some 5) ≡ false)
unfolding is_stuck
waits_too_long = (refl, refl)

-- A queued row, and a failed one with attempts left.
abbrev failed_run : SyncRun
failed_run = record lost_run { id = 2; status = failed; attempts = 1 }

abbrev one_failed : Store
one_failed = record one_queued { runs = one_queued.runs ++ failed_run ∷ []; next_run_id = 3 }

one_failed-IsTracked : IsTracked [] one_failed
one_failed-IsTracked = record {
  rows = refl;
  ids_unique = refl;
  ids_drawn = refl;
  live_unique = refl;
  live_held = refl;
}

Reach-IsTracked_example : IsTracked [] (
    record_failure 9 "TimeoutError"
      (tracked (adopt defaults (sync_group 7) 6 none (some failed_run) one_failed).0)
      (adopt defaults (sync_group 7) 6 none (some failed_run) one_failed).1)
unfolding adopt reuse_or_create Undisturbed Steady Unchanged
Reach-IsTracked_example =
    Reach-IsTracked defaults is_known (ground arith) (record { store = one_failed; live = [] })
      (next (next here (began (sync_group 7) 6 none (some failed_run))) (
        fails 9 "TimeoutError"
          (tracked (adopt defaults (sync_group 7) 6 none (some failed_run) one_failed).0)
          (Memᴰ.head refl)))
      ((tt, (refl, refl)), tt) one_failed-IsTracked

adopt-adopt_distinct_example :
    (adopt defaults (sync_group 7) 6 (some 1) none one_failed).0.id
    ≢ (adopt defaults
        (sync_group 7)
        6
        (some 1)
        (some failed_run)
        (adopt defaults (sync_group 7) 6 (some 1) none one_failed).1).0.id
unfolding Unchanged adopt claim_or
adopt-adopt_distinct_example =
    adopt-adopt_distinct defaults (sync_group 7) (sync_group 7) 6 6 (some 1) (some 1) none
      (some failed_run) [] one_failed (ground arith) tt (refl, refl) one_failed-IsTracked

-- Two workers that have both read the failed row before either of them writes get the same run, for
-- the same attempt.
abbrev reused : SyncRun × Store
reused = adopt defaults (sync_group 7) 6 none (some failed_run) one_failed

shared_run :
    tracked reused.0 ≡ tracked (adopt defaults (sync_group 7) 8 none (some failed_run) reused.1).0
unfolding adopt reuse_or_create
shared_run = refl

-- The worker of group 7 takes the row that was enqueued for group 8, with its arguments.
enqueue-claim_or_create_run_example :
    (_claim_or_create_run defaults
      (sync_group 7)
      9
      (enqueue defaults online 6 "sync_group_task" (number 8 ∷ []) [] none none one_queued)).0
    ≡ claimed (sync_group 7) 9 (
        queued_run defaults 6 2 "sync_group_task" none none
          (record { args = some (number 8 ∷ []); kwargs = some [] }))
enqueue-claim_or_create_run_example =
    enqueue-claim_or_create_run defaults true 6 9 (number 8 ∷ []) [] none none (sync_group 7) []
      one_queued one_queued-IsTracked

abbrev lost : Store
lost = record no_runs { runs = lost_run ∷ []; next_run_id = 2 }

retry_all_failed_counts_example :
    (retry_all_failed defaults is_known online 30 lost).0.retried
    ≡ length (select (λ r. is_known r.task_name) (select (has_status failed_permanent) lost.runs))
retry_all_failed_counts_example = (retry_all_failed_counts defaults is_known true 30 lost).0
