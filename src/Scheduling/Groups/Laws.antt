-- ===== src/Scheduling/Groups/Laws.antt =====
-- Which jobs a scheduling pass over the sync groups leaves
-- (backend/app/services/sync_scheduler.py).
use big_bug.Prelude.{
  ℕ, String, ◌≡◌, refl, sym, ap, ◌∙◌, subst, inl, inr, Bool, true, false, Option, none, some, List,
  [], ◌∷◌, arith, if◌then◌else◌, text_keys, number_keys, ◌==◌, is_some, Bool-cases, Option-cases,
  any, delete_where, find, contains, unique, unique-select,
}
use big_bug.Scheduling.{JobId, sync_group, freshness_group, Job, JobStore, IsJobStore, same_job}
use big_bug.Mirroring.{SyncGroup}
use big_bug.Scheduling.Groups.{
  SyncScheduler, get_active_sync_groups, _remove_job_safe, sync_triggered, sync_on,
  schedule_sync_job, freshness_triggered, freshness_on, schedule_freshness_job, wanted_cron,
  schedule_sync, schedule_freshness, schedule_group, schedule_groups, _schedule_all_jobs,
}

module _ {Trigger Jobs : Type 0} (o : JobStore Trigger Jobs) (laws : IsJobStore o) where
  unfoldable pub job_in : Option Jobs → JobId → Option (Job Trigger)
  job_in none job = none
  job_in (some jobs) job = o.get_job jobs job

  -- The job that is scheduled under an id.
  unfoldable pub job_of : SyncScheduler o → JobId → Option (Job Trigger)
  unfolding job_in
  job_of s job = job_in s.scheduler job

  unfoldable pub with_trigger :
      SyncGroup → Option Trigger → Option (Job Trigger) → Option (Job Trigger)
  with_trigger g none before = before
  with_trigger g (some trigger) before =
      some (record { trigger = trigger; args = g.id ∷ g.sync_concurrency ∷ [] })

  unfoldable pub with_cron : SyncGroup → Option String → Option (Job Trigger) → Option (Job Trigger)
  unfolding with_trigger
  with_cron g none before = before
  with_cron g (some cron) before = with_trigger g (o.from_crontab cron) before

  -- The sync job that a group asks for, over the job it had before.
  unfoldable pub asked : SyncGroup → Option (Job Trigger) → Option (Job Trigger)
  unfolding with_cron
  asked g before = with_cron g (wanted_cron o g.sync_enabled g.sync_cron) before

  unfoldable pub asked_by : Option SyncGroup → Option (Job Trigger) → Option (Job Trigger)
  asked_by none before = before
  asked_by (some g) before = asked g before

  abbrev is_started : SyncScheduler o → Bool
  is_started s = is_some s.scheduler

  removed_lem :
      (job : JobId) (id : ℕ) (known : List ℕ) (jobs : Jobs) (other : JobId)
      → same_job job other ≡ false
      → o.get_job (_remove_job_safe o job id known jobs) other ≡ o.get_job jobs other
  unfolding _remove_job_safe
  removed_lem job id known jobs other ne = elim (Bool-cases (contains known id)) [
    | inl e ↦ rw e (laws.get-remove_job job other jobs ∙ (rw ne refl))
    | inr e ↦ rw e refl
  ]

  if_same : {A : Type 0} (b : Bool) (a : A) → a ≡ (if b then a else a)
  if_same true a = refl
  if_same false a = refl

  sync_triggered_lem :
      (g : SyncGroup) (trigger : Option Trigger) (jobs : Jobs) (s : SyncScheduler o) (id : ℕ)
      → s.scheduler ≡ some jobs
      → (is_started (sync_triggered o g.id g.sync_concurrency trigger jobs s).1 ≡ true)
        × (job_of (sync_triggered o g.id g.sync_concurrency trigger jobs s).1 (sync_group id) ≡ (
            if g.id == id
            then with_trigger g trigger (job_of s (sync_group id))
            else job_of s (sync_group id)))
  unfolding sync_triggered job_of job_in with_trigger
  sync_triggered_lem g none jobs s id e = (rw e refl, if_same (g.id == id) _)
  sync_triggered_lem g (some t) jobs s id e = (
    refl,
    laws.get-add_job (sync_group g.id) (sync_group id) _
          (_remove_job_safe o (sync_group g.id) g.id s.sync_jobs jobs)
        ∙ elim (Bool-cases (g.id == id)) [
          | inl h ↦ rw h refl
          | inr h ↦
              rw h (rw e (removed_lem (sync_group g.id) g.id s.sync_jobs jobs (sync_group id) h))
        ],
  )

  schedule_sync_lem :
      (g : SyncGroup) (cron : Option String) (s : SyncScheduler o) (id : ℕ)
      → is_started s ≡ true
      → (is_started (schedule_sync o g cron s) ≡ true)
        × (job_of (schedule_sync o g cron s) (sync_group id) ≡ (
            if g.id == id
            then with_cron g cron (job_of s (sync_group id))
            else job_of s (sync_group id)))
  unfolding schedule_sync schedule_sync_job sync_on with_cron
  schedule_sync_lem g none s id h = (h, if_same (g.id == id) _)
  schedule_sync_lem g (some cron) s id h = elim (Option-cases s.scheduler) [
    | inl e ↦ ground (arith, e)
    | inr (jobs, e) ↦
        let done = sync_triggered_lem g (o.from_crontab cron) jobs s id e in
        subst
          (λ q.
            (is_started (sync_on o g.id cron g.sync_concurrency q s).1 ≡ true)
            × (job_of (sync_on o g.id cron g.sync_concurrency q s).1 (sync_group id) ≡ (
                if g.id == id
                then with_trigger g (o.from_crontab cron) (job_of s (sync_group id))
                else job_of s (sync_group id))))
          (sym e) done
  ]

  -- The freshness job of a group is none of the sync jobs.
  freshness_triggered_lem :
      (gid concurrency : ℕ) (trigger : Option Trigger) (jobs : Jobs) (s : SyncScheduler o) (id : ℕ)
      → s.scheduler ≡ some jobs
      → (is_started (freshness_triggered o gid concurrency trigger jobs s).1 ≡ true)
        × (job_of (freshness_triggered o gid concurrency trigger jobs s).1 (sync_group id)
            ≡ job_of s (sync_group id))
  unfolding freshness_triggered job_of job_in
  freshness_triggered_lem gid concurrency none jobs s id e = (rw e refl, refl)
  freshness_triggered_lem gid concurrency (some t) jobs s id e =
      (refl, rw e (laws.get-add_job (freshness_group gid) (sync_group id) _ jobs))

  schedule_freshness_lem :
      (g : SyncGroup) (cron : Option String) (s : SyncScheduler o) (id : ℕ)
      → is_started s ≡ true
      → (is_started (schedule_freshness o g cron s) ≡ true)
        × (job_of (schedule_freshness o g cron s) (sync_group id) ≡ job_of s (sync_group id))
  unfolding schedule_freshness schedule_freshness_job freshness_on job_of job_in
  schedule_freshness_lem g none s id h = (h, refl)
  schedule_freshness_lem g (some cron) s id h = elim (Option-cases s.scheduler) [
    | inl e ↦ ground (arith, e)
    | inr (jobs, e) ↦
        let left = _remove_job_safe o (freshness_group g.id) g.id s.freshness_jobs jobs in
        let cleared : SyncScheduler o = record s {
          scheduler = some left;
          freshness_jobs = delete_where (λ k. k == g.id) s.freshness_jobs;
        } in
        let (a, b) =
          freshness_triggered_lem g.id g.freshness_concurrency (o.from_crontab cron) left cleared id
            refl in
        let kept =
          removed_lem (freshness_group g.id) g.id s.freshness_jobs jobs (sync_group id) refl in
        subst
          (λ q.
            (is_started (freshness_on o g.id cron g.freshness_concurrency q s).1 ≡ true)
            × (job_of (freshness_on o g.id cron g.freshness_concurrency q s).1 (sync_group id)
                ≡ job_in q (sync_group id)))
          (sym e) (a, b ∙ kept)
  ]

  schedule_group_lem :
      (g : SyncGroup) (s : SyncScheduler o) (id : ℕ)
      → is_started s ≡ true
      → (is_started (schedule_group o g s) ≡ true)
        × (job_of (schedule_group o g s) (sync_group id)
            ≡ (if g.id == id then asked g (job_of s (sync_group id)) else job_of s (sync_group id)))
  unfolding schedule_group asked
  schedule_group_lem g s id h =
      let (a, b) = schedule_sync_lem g (wanted_cron o g.sync_enabled g.sync_cron) s id h in
      let (c, d) =
        schedule_freshness_lem g (wanted_cron o g.freshness_enabled g.freshness_cron) _ id a in
      (c, d ∙ b)

  absent_groups :
      (groups : List SyncGroup) (s : SyncScheduler o) (id : ℕ)
      → is_started s ≡ true
      → any (λ g. g.id == id) groups ≡ false
      → job_of (schedule_groups o groups s) (sync_group id) ≡ job_of s (sync_group id)
  unfolding schedule_groups
  absent_groups [] s id h e = refl
  absent_groups (g ∷ groups) s id h e =
      let (a, b) = schedule_group_lem g s id h in
      let other : (g.id == id) ≡ false = ground arith in
      absent_groups groups (schedule_group o g s) id a (ground arith) ∙ b ∙ (rw other refl)

  groups_lem :
      (groups : List SyncGroup) (s : SyncScheduler o) (id : ℕ)
      → is_started s ≡ true
      → unique (λ (g : SyncGroup). g.id) groups ≡ true
      → job_of (schedule_groups o groups s) (sync_group id)
        ≡ asked_by (find (λ g. g.id == id) groups) (job_of s (sync_group id))
  unfolding schedule_groups asked_by
  groups_lem [] s id h u = refl
  groups_lem (g ∷ groups) s id h u =
      let (a, b) = schedule_group_lem g s id h in
      elim (Bool-cases (g.id == id)) [
        | inl e ↦
            let same : g.id ≡ id = ground arith in
            absent_groups groups (schedule_group o g s) id a
              (subst (λ k. any (λ (x : SyncGroup). x.id == k) groups ≡ false) same (ground arith))
            ∙ b
            ∙ (rw e refl)
        | inr e ↦
            groups_lem groups (schedule_group o g s) id a (ground arith)
            ∙ (rw e (ap (asked_by (find (λ (x : SyncGroup). x.id == id) groups)) (b ∙ (rw e refl))))
      ]

  -- With the laws of the job store and unique group ids, a pass of a started scheduler over the groups
  -- leaves under the sync id of a group: the job that the active group of that id asks for, when its
  -- sync is enabled with a valid expression, and otherwise, also when there is no active group of that
  -- id any more, the job that was there before.
  pub schedule_all_jobs_exact :
      (groups : List SyncGroup) (s : SyncScheduler o) (id : ℕ)
      → is_some s.scheduler ≡ true
      → unique (λ (g : SyncGroup). g.id) groups ≡ true
      → job_of (_schedule_all_jobs o groups s) (sync_group id)
        ≡ asked_by
            (find (λ g. g.id == id) (get_active_sync_groups groups))
            (job_of s (sync_group id))
  unfolding _schedule_all_jobs get_active_sync_groups
  schedule_all_jobs_exact groups s id h u = rw h (
      groups_lem (get_active_sync_groups groups) s id h
        (unique-select (λ (g : SyncGroup). g.id) _ groups u))
