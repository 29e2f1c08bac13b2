-- ===== src/Scheduling/Groups/Invalid.antt =====
-- What an invalid cron expression does to a job that is scheduled
-- (`schedule_sync_job` and `schedule_freshness_job` in backend/app/services/sync_scheduler.py).
use big_bug.Prelude.{
  ℕ, String, ◌≡◌, refl, ◌∙◌, inl, inr, true, none, some, arith, text_keys, number_keys, ◌==◌,
  is_some, Option-cases, contains,
}
use big_bug.Scheduling.{sync_group, freshness_group, JobStore, IsJobStore}
use big_bug.Scheduling.Groups.{
  SyncScheduler, value_error, _remove_job_safe, sync_triggered, sync_on, schedule_sync_job,
  freshness_triggered, freshness_on, schedule_freshness_job,
}
use big_bug.Scheduling.Groups.Laws.{job_of, job_in}

same_number : (n : ℕ) → (n == n) ≡ true
same_number n = ground arith

-- With the laws of the job store, a started scheduler and jobs of a group that it knows, rescheduling
-- with an expression that is no cron expression raises for both jobs; it keeps the sync job of the
-- group and removes its freshness job.
pub invalid_cron_jobs :
    {Trigger Jobs : Type 0} (o : JobStore Trigger Jobs) (laws : IsJobStore o) (id : ℕ)
    (cron_expr : String) (concurrency : ℕ) (s : SyncScheduler o)
    → o.from_crontab cron_expr ≡ none
    → is_some s.scheduler ≡ true
    → contains s.freshness_jobs id ≡ true
    → ((schedule_sync_job o id cron_expr concurrency s).0 ≡ some value_error)
      × ((schedule_freshness_job o id cron_expr concurrency s).0 ≡ some value_error)
      × (job_of o laws (schedule_sync_job o id cron_expr concurrency s).1 (sync_group id)
          ≡ job_of o laws s (sync_group id))
      × (job_of o laws (schedule_freshness_job o id cron_expr concurrency s).1 (freshness_group id)
          ≡ none)
unfolding schedule_sync_job sync_on sync_triggered schedule_freshness_job freshness_on
    freshness_triggered job_of job_in _remove_job_safe
invalid_cron_jobs o laws id cron_expr concurrency s bad h known = elim (Option-cases s.scheduler) [
  | inl e ↦ ground (arith, e)
  | inr (jobs, e) ↦ rw e (
      rw bad (
        rw known (
          refl,
          refl,
          refl,
          laws.get-remove_job (freshness_group id) (freshness_group id) jobs
              ∙ (rw (same_number id) refl),
        )))
]
