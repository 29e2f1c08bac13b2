-- ===== src/Scheduling.antt =====
-- The in-process schedulers and what they use of others: APScheduler's job store, cron expressions and
-- Redis locks stand behind records of operations and of the laws the code relies on.
pub mod Groups
pub mod Passes
pub mod Locked
mod Tests
use big_bug.Prelude.{
  ℕ, String, ◌≡◌, Bool, true, false, not, ◌&&◌, Option, none, some, List, [], if◌then◌else◌,
  text_keys, number_keys, ◌==◌,
}

-- `f"sync_group_{id}"`, `f"freshness_group_{id}"`, and the fixed names of the passes
pub data JobId : Type 0 where
  sync_group : ℕ → JobId
  freshness_group : ℕ → JobId
  pass : String → JobId

abbrev pub same_job : JobId → JobId → Bool
same_job (sync_group a) (sync_group b) = a == b
same_job (freshness_group a) (freshness_group b) = a == b
same_job (pass a) (pass b) = a == b
same_job _ _ = false

pub record Job (Trigger : Type 0) : Type 0 where
  pub trigger : Trigger
  pub args : List ℕ

-- APScheduler's jobs. `add_job` is called with `replace_existing`, and the error of `remove_job` on a
-- missing job is suppressed by its callers.
pub record JobStore (Trigger Jobs : Type 0) : Type 0 where
  pub from_crontab : String → Option Trigger
  pub add_job : JobId → Job Trigger → Jobs → Jobs
  pub remove_job : JobId → Jobs → Jobs
  pub get_job : Jobs → JobId → Option (Job Trigger)

pub record IsJobStore {Trigger Jobs : Type 0} (o : JobStore Trigger Jobs) : Type 0 where
  pub get-add_job :
      (id other : JobId) (job : Job Trigger) (jobs : Jobs)
      → o.get_job (o.add_job id job jobs) other
        ≡ (if same_job id other then some job else o.get_job jobs other)
  pub get-remove_job :
      (id other : JobId) (jobs : Jobs)
      → o.get_job (o.remove_job id jobs) other
        ≡ (if same_job id other then none else o.get_job jobs other)

-- `SET key 1 NX PX ttl` and `DEL key` at a time in milliseconds.
pub record Redis (R : Type 0) : Type 0 where
  pub set_nx : ℕ → String → ℕ → R → Bool × R
  pub delete : String → R → R
  pub exists : ℕ → String → R → Bool

pub record IsRedis {R : Type 0} (o : Redis R) : Type 0 where
  pub acquires :
      (now : ℕ) (key : String) (ttl : ℕ) (r : R)
      → (o.set_nx now key ttl r).0 ≡ not (o.exists now key r)
  pub refused :
      (now : ℕ) (key : String) (ttl : ℕ) (r : R)
      → o.exists now key r ≡ true
      → (o.set_nx now key ttl r).1 ≡ r
  pub others :
      (now later : ℕ) (key other : String) (ttl : ℕ) (r : R)
      → (key == other) ≡ false
      → o.exists later other (o.set_nx now key ttl r).1 ≡ o.exists later other r
  pub deleted :
      (now : ℕ) (key other : String) (r : R)
      → o.exists now other (o.delete key r) ≡ (not (key == other) && o.exists now other r)
