-- ===== src/Scheduling/Tests.antt =====
-- Job stores and locks as lists, and the theorems at concrete inputs.
use big_bug.Prelude.{
  ℕ, ◌+◌, String, ◌≡◌, refl, ap, ◌∙◌, inl, inr, Bool, true, false, not, ◌&&◌, Option, none, some,
  List, [], ◌∷◌, arith, ltb, if◌then◌else◌, text_keys, number_keys, ◌==◌, Bool-cases, any,
  delete_where, find,
}
use big_bug.SyncRuns.{Settings, Reachable, enqueue}
use big_bug.Scheduling.{
  JobId, sync_group, freshness_group, pass, same_job, Job, JobStore, IsJobStore, Redis, IsRedis,
}
use big_bug.Mirroring.{SyncGroup}
use big_bug.Scheduling.Groups.{
  SyncScheduler, get_active_sync_groups, _schedule_all_jobs, schedule_sync_job,
  schedule_freshness_job, value_error,
}
use big_bug.Scheduling.Groups.Laws.{job_of, asked_by, schedule_all_jobs_exact}
use big_bug.Scheduling.Groups.Invalid.{invalid_cron_jobs}
use big_bug.Scheduling.Passes.{Plane, job_pass_lock, _run_sync_jobs}
use big_bug.Scheduling.Locked.{job_pass_lock_exact, _run_sync_jobs_twice}

abbrev Jobs : Type 0
Jobs = List (JobId × Job String)

abbrev cron_of : String → Option String
cron_of text = if text == "bad" then none else some text

look_up : Jobs → JobId → Option (Job String)
look_up [] id = none
look_up ((k, job) ∷ jobs) id =
    let rest = look_up jobs id in if same_job k id then some job else rest

abbrev forget : JobId → Jobs → Jobs
forget id = delete_where (λ entry. same_job entry.0 id)

abbrev listed : JobStore String Jobs
unfolding look_up
listed = record {
  from_crontab = cron_of;
  add_job = λ id job jobs. (id, job) ∷ jobs;
  remove_job = forget;
  get_job = look_up;
}

same_job_eq : (a b : JobId) → same_job a b ≡ true → a ≡ b
same_job_eq (sync_group a) (sync_group b) h = ap sync_group (ground arith)
same_job_eq (freshness_group a) (freshness_group b) h = ap freshness_group (ground arith)
same_job_eq (pass a) (pass b) h = ap pass ((text_keys.agrees a b).0 h)
same_job_eq (sync_group a) (freshness_group b) h = ground arith
same_job_eq (sync_group a) (pass b) h = ground arith
same_job_eq (freshness_group a) (sync_group b) h = ground arith
same_job_eq (freshness_group a) (pass b) h = ground arith
same_job_eq (pass a) (sync_group b) h = ground arith
same_job_eq (pass a) (freshness_group b) h = ground arith

ifs :
    {A : Type 0} (b : Bool) (x y : Option A)
    → (if b then none else x) ≡ (if b then none else (if b then y else x))
ifs true x y = refl
ifs false x y = refl

not_both :
    (k id other : JobId)
    → same_job k id ≡ false
    → same_job k other ≡ true
    → same_job id other ≡ false
not_both k id other e hit = elim (Bool-cases (same_job id other)) [
  | inr miss ↦ miss
  | inl both ↦ ground (arith, ap (same_job k) (same_job_eq id other both))
]

look_up-forget :
    (id other : JobId) (jobs : Jobs)
    → look_up (forget id jobs) other ≡ (if same_job id other then none else look_up jobs other)
unfolding look_up
look_up-forget id other [] = elim (Bool-cases (same_job id other)) [
  | inl e ↦ rw e refl
  | inr e ↦ rw e refl
]
look_up-forget id other ((k, job) ∷ jobs) = elim (Bool-cases (same_job k id)) [
  | inl e ↦
      let same = ap (λ x. same_job x other) (same_job_eq k id e) in
      rw e (
        rw same
          (look_up-forget id other jobs ∙ ifs (same_job id other) (look_up jobs other) (some job)))
  | inr e ↦ rw e (elim (Bool-cases (same_job k other)) [
    | inl hit ↦
        let it = same_job_eq k other hit in
        let miss : same_job id other ≡ false = not_both k id other e hit in rw hit (rw miss refl)
    | inr miss ↦ rw miss (look_up-forget id other jobs)
  ])
]

listed-IsJobStore : IsJobStore listed
unfolding look_up
listed-IsJobStore = record {
  get-add_job = λ id other job jobs. refl;
  get-remove_job = look_up-forget;
}

abbrev Locks : Type 0
Locks = List (String × ℕ)

abbrev is_held : ℕ → String → Locks → Bool
is_held now key = any (λ l. l.0 == key && ltb now l.1)

abbrev in_memory : Redis Locks
in_memory = record {
  set_nx = λ now key ttl r. if is_held now key r then (false, r) else (true, (key, now + ttl) ∷ r);
  delete = λ key. delete_where (λ l. l.0 == key);
  exists = is_held;
}

is_held-delete :
    (now : ℕ) (key other : String) (r : Locks)
    → is_held now other (delete_where (λ l. l.0 == key) r)
      ≡ (not (key == other) && is_held now other r)
is_held-delete now key other [] = ground arith
is_held-delete now key other ((k, until) ∷ r) = elim (Bool-cases (k == key)) [
  | inl e ↦
      let same = ap (λ x. x == other) ((text_keys.agrees k key).0 e) in
      ground (arith, same, is_held-delete now key other r)
  | inr e ↦ elim (Bool-cases (key == other)) [
    | inl h ↦
        let same = ap (λ x. k == x) ((text_keys.agrees key other).0 h) in
        ground (arith, same, is_held-delete now key other r)
    | inr h ↦ ground (arith, is_held-delete now key other r)
  ]
]

in_memory-IsRedis : IsRedis in_memory
in_memory-IsRedis = record {
  acquires = λ now key ttl r. ground arith;
  refused = λ now key ttl r taken. rw taken refl;
  others = λ now later key other ttl r ne. ground arith;
  deleted = is_held-delete;
}

abbrev nightly : SyncGroup
nightly = record {
  id = 3;
  name = "nightly";
  description = none;
  pipeline_id = none;
  is_default = false;
  sync_cron = some "0 2 * * *";
  sync_enabled = true;
  sync_concurrency = 5;
  freshness_cron = none;
  freshness_enabled = false;
  freshness_concurrency = 5;
  is_deleted = false;
  deleted_at = none;
}

abbrev hourly : SyncGroup
hourly = record nightly {
  id = 4;
  name = "hourly";
  sync_cron = some "bad";
  freshness_cron = some "0 * * * *";
  freshness_enabled = true;
}

-- Group 9 was scheduled before and is no active group any more.
abbrev earlier : SyncScheduler listed
earlier = record {
  scheduler = some ((sync_group 9, record { trigger = "0 0 * * *"; args = 9 ∷ 5 ∷ [] }) ∷ []);
  sync_jobs = 9 ∷ [];
  freshness_jobs = [];
}

schedule_all_jobs_exact_example :
    job_of listed listed-IsJobStore
      (_schedule_all_jobs listed (nightly ∷ hourly ∷ []) earlier)
      (sync_group 9)
    ≡ asked_by listed listed-IsJobStore
        (find (λ g. g.id == 9) (get_active_sync_groups (nightly ∷ hourly ∷ [])))
        (job_of listed listed-IsJobStore earlier (sync_group 9))
schedule_all_jobs_exact_example =
    schedule_all_jobs_exact listed listed-IsJobStore (nightly ∷ hourly ∷ []) earlier 9 refl refl

abbrev fresh_before : SyncScheduler listed
fresh_before = record {
  scheduler = some ((freshness_group 4, record { trigger = "0 * * * *"; args = 4 ∷ 5 ∷ [] }) ∷ []);
  sync_jobs = [];
  freshness_jobs = 4 ∷ [];
}

invalid_cron_jobs_example :
    ((schedule_sync_job listed 4 "bad" 5 fresh_before).0 ≡ some value_error)
    × ((schedule_freshness_job listed 4 "bad" 5 fresh_before).0 ≡ some value_error)
    × (job_of listed listed-IsJobStore
          (schedule_sync_job listed 4 "bad" 5 fresh_before).1
          (sync_group 4)
        ≡ job_of listed listed-IsJobStore fresh_before (sync_group 4))
    × (job_of listed listed-IsJobStore
          (schedule_freshness_job listed 4 "bad" 5 fresh_before).1
          (freshness_group 4)
        ≡ none)
unfolding listed
invalid_cron_jobs_example =
    invalid_cron_jobs listed listed-IsJobStore 4 "bad" 5 fresh_before refl refl refl

abbrev idle : Plane Locks
idle = record {
  redis = ("bigbug:job_pass_lock:build_all", 500) ∷ [];
  store = record { runs = []; next_run_id = 1; published = [] };
  maintenance_logged = false;
}

abbrev defaults : Settings
defaults = record { task_max_retries = 3; sync_stuck_after_minutes = 30 }

abbrev online : Reachable
online = record { database = true; broker = true }

-- The build pass is locked until 500.
job_pass_lock_exact_example :
    (job_pass_lock in_memory 100 "build_all"
      (enqueue defaults online 100 "build_all_task" [] [] none none)
      idle).store
    ≡ idle.store
job_pass_lock_exact_example =
    (job_pass_lock_exact in_memory in_memory-IsRedis 100 "build_all"
      (enqueue defaults online 100 "build_all_task" [] [] none none) idle).0

_run_sync_jobs_twice_example :
    (_run_sync_jobs in_memory defaults online 100 false
      (_run_sync_jobs in_memory defaults online 100 false idle)).store
    ≡ enqueue defaults online 100 "sync_all_task" [] [] none none
        (enqueue defaults online 100 "sync_all_task" [] [] none none idle.store)
_run_sync_jobs_twice_example =
    _run_sync_jobs_twice in_memory in_memory-IsRedis defaults online 100 idle refl
