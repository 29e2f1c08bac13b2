-- ===== src/Scheduling/Groups.antt =====
-- The scheduler of sync groups (`SyncScheduler` in backend/app/services/sync_scheduler.py, with
-- `get_active_sync_groups` of backend/app/services/sync_group.py). The two dictionaries hold the ids
-- of the groups only: the job id of a group is a function of its id.
pub mod Laws
pub mod Invalid
use big_bug.Prelude.{
  ℕ, String, Bool, not, ◌&&◌, ◌||◌, Option, none, some, List, [], ◌∷◌, if◌then◌else◌, text_keys,
  number_keys, ◌==◌, is_some, select, delete_where, contains,
}
use big_bug.Mirroring.{SyncGroup}
use big_bug.Scheduling.{JobId, sync_group, freshness_group, JobStore}

unfoldable pub get_active_sync_groups : List SyncGroup → List SyncGroup
get_active_sync_groups = select (λ g. not g.is_deleted && (g.sync_enabled || g.freshness_enabled))

pub data Raised : Type 0 where
  value_error : Raised

module _ {Trigger Jobs : Type 0} (o : JobStore Trigger Jobs) where
  -- `_scheduler` is `none` until `start` and after `stop`.
  pub record SyncScheduler : Type 0 where
    pub scheduler : Option Jobs
    pub sync_jobs : List ℕ
    pub freshness_jobs : List ℕ

  -- What a call raised, if anything, and the state it leaves.
  abbrev pub Call : Type 0
  Call = Option Raised × SyncScheduler

  -- `_remove_job_safe(dictionary.pop(id, None))`
  unfoldable pub _remove_job_safe : JobId → ℕ → List ℕ → Jobs → Jobs
  _remove_job_safe job id known jobs = if contains known id then o.remove_job job jobs else jobs

  abbrev pub without : ℕ → List ℕ → List ℕ
  without id = delete_where (λ k. k == id)

  -- An invalid expression raises before the old job is removed.
  unfoldable pub sync_triggered : ℕ → ℕ → Option Trigger → Jobs → SyncScheduler → Call
  sync_triggered id concurrency none jobs s = (some value_error, s)
  sync_triggered id concurrency (some trigger) jobs s = (
    none,
    record s {
      scheduler = some (
          o.add_job (sync_group id) (record { trigger = trigger; args = id ∷ concurrency ∷ [] })
            (_remove_job_safe (sync_group id) id s.sync_jobs jobs));
      sync_jobs = id ∷ without id s.sync_jobs;
    },
  )

  unfoldable pub sync_on : ℕ → String → ℕ → Option Jobs → SyncScheduler → Call
  unfolding sync_triggered
  sync_on id cron_expr concurrency none s = (none, s)
  sync_on id cron_expr concurrency (some jobs) s =
      sync_triggered id concurrency (o.from_crontab cron_expr) jobs s

  unfoldable pub schedule_sync_job : ℕ → String → ℕ → SyncScheduler → Call
  unfolding sync_on
  schedule_sync_job id cron_expr concurrency s = sync_on id cron_expr concurrency s.scheduler s

  -- The old job is removed before the expression is read.
  unfoldable pub freshness_triggered : ℕ → ℕ → Option Trigger → Jobs → SyncScheduler → Call
  freshness_triggered id concurrency none jobs s = (some value_error, s)
  freshness_triggered id concurrency (some trigger) jobs s = (
    none,
    record s {
      scheduler = some (
          o.add_job (freshness_group id)
            (record { trigger = trigger; args = id ∷ concurrency ∷ [] }) jobs);
      freshness_jobs = id ∷ s.freshness_jobs;
    },
  )

  unfoldable pub freshness_on : ℕ → String → ℕ → Option Jobs → SyncScheduler → Call
  unfolding freshness_triggered
  freshness_on id cron_expr concurrency none s = (none, s)
  freshness_on id cron_expr concurrency (some jobs) s =
      let left = _remove_job_safe (freshness_group id) id s.freshness_jobs jobs in
      freshness_triggered id concurrency (o.from_crontab cron_expr) left
        (record s { scheduler = some left; freshness_jobs = without id s.freshness_jobs })

  unfoldable pub schedule_freshness_job : ℕ → String → ℕ → SyncScheduler → Call
  unfolding freshness_on
  schedule_freshness_job id cron_expr concurrency s =
      freshness_on id cron_expr concurrency s.scheduler s

  unfoldable pub removed_from : JobId → ℕ → List ℕ → Option Jobs → Option Jobs
  unfolding _remove_job_safe
  removed_from job id known none = none
  removed_from job id known (some jobs) = some (_remove_job_safe job id known jobs)

  unfoldable pub remove_sync_job : ℕ → SyncScheduler → SyncScheduler
  remove_sync_job id s = record s {
    scheduler = removed_from (sync_group id) id s.sync_jobs s.scheduler;
    sync_jobs = without id s.sync_jobs;
  }

  unfoldable pub remove_freshness_job : ℕ → SyncScheduler → SyncScheduler
  remove_freshness_job id s = record s {
    scheduler = removed_from (freshness_group id) id s.freshness_jobs s.scheduler;
    freshness_jobs = without id s.freshness_jobs;
  }

  -- `if enabled and cron`: an empty expression counts as none.
  abbrev pub wanted_cron : Bool → Option String → Option String
  wanted_cron enabled none = none
  wanted_cron enabled (some cron) = if enabled && not (cron == "") then some cron else none

  unfoldable pub schedule_sync : SyncGroup → Option String → SyncScheduler → SyncScheduler
  schedule_sync g none s = s
  schedule_sync g (some cron) s = (schedule_sync_job g.id cron g.sync_concurrency s).1

  unfoldable pub schedule_freshness : SyncGroup → Option String → SyncScheduler → SyncScheduler
  schedule_freshness g none s = s
  schedule_freshness g (some cron) s =
      (schedule_freshness_job g.id cron g.freshness_concurrency s).1

  -- One group of the loop: what the two calls raise is logged.
  unfoldable pub schedule_group : SyncGroup → SyncScheduler → SyncScheduler
  unfolding schedule_sync schedule_freshness
  schedule_group g s =
      schedule_freshness g (wanted_cron g.freshness_enabled g.freshness_cron)
        (schedule_sync g (wanted_cron g.sync_enabled g.sync_cron) s)

  unfoldable pub schedule_groups : List SyncGroup → SyncScheduler → SyncScheduler
  schedule_groups [] s = s
  schedule_groups (g ∷ groups) s = schedule_groups groups (schedule_group g s)

  -- Without a scheduler the call warns and returns.
  unfoldable pub _schedule_all_jobs : List SyncGroup → SyncScheduler → SyncScheduler
  _schedule_all_jobs groups s =
      if is_some s.scheduler then schedule_groups (get_active_sync_groups groups) s else s

  unfoldable pub start : Jobs → List SyncGroup → SyncScheduler → SyncScheduler
  start empty groups s = _schedule_all_jobs groups (record s { scheduler = some empty })

  unfoldable pub stop : SyncScheduler → SyncScheduler
  stop s = record s { scheduler = none }
