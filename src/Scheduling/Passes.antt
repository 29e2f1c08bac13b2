-- ===== src/Scheduling/Passes.antt =====
-- The fixed passes (backend/app/services/scheduler.py), the passes of a group
-- (`_run_sync_for_group` and `_run_freshness_for_group` in backend/app/services/sync_scheduler.py)
-- and the lock they take (backend/app/tasks/pass_lock.py). `maintenance` is what
-- `is_maintenance_mode` answers, and a pass reads the clock once.
use big_bug.Prelude.{
  ℕ, ◌*◌, String, Bool, true, false, not, none, List, [], ◌∷◌, text_keys, number_keys,
}
use Prim.Native.String.{◌++◌ as str_append}
use big_bug.SyncRuns.{Settings, Store, Reachable, Argument, number, enqueue}
use big_bug.Scheduling.{Redis}

abbrev pub lock_key : String → String
lock_key name = str_append "bigbug:job_pass_lock:" name

-- `ttl_seconds` of the lock, in milliseconds
abbrev pub lock_ttl : ℕ
lock_ttl = 3600 * 1000

pub record Plane (R : Type 0) : Type 0 where
  pub redis : R
  pub store : Store
  pub maintenance_logged : Bool

module _ {R : Type 0} (redis : Redis R) where
  -- The body runs under the lock, or is skipped; the lock is given back after the body.
  unfoldable pub locked : String → (Store → Store) → Bool × R → Plane R → Plane R
  locked name body (false, r) p = record p { redis = r }
  locked name body (true, r) p = record p {
    redis = redis.delete (lock_key name) r;
    store = body p.store;
  }

  unfoldable pub job_pass_lock : ℕ → String → (Store → Store) → Plane R → Plane R
  unfolding locked
  job_pass_lock now name body p =
      locked name body (redis.set_nx now (lock_key name) lock_ttl p.redis) p

  unfoldable pub _gate_pass : Bool → Plane R → Bool × Plane R
  _gate_pass maintenance p = (not maintenance, record p { maintenance_logged = maintenance })

  module _ (settings : Settings) (up : Reachable) (now : ℕ) where
    unfoldable pub gated : String → (Store → Store) → Bool × Plane R → Plane R
    gated name body (false, p) = p
    gated name body (true, p) = job_pass_lock now name body p

    unfoldable pub task : String → List Argument → Store → Store
    task name args = enqueue settings up now name args [] none none

    unfoldable pub _run_sync_jobs : Bool → Plane R → Plane R
    unfolding gated task
    _run_sync_jobs maintenance p =
        gated "sync_all" (task "sync_all_task" []) (_gate_pass maintenance p)

    unfoldable pub _run_build_jobs : Bool → Plane R → Plane R
    unfolding gated task
    _run_build_jobs maintenance p =
        gated "build_all" (task "build_all_task" []) (_gate_pass maintenance p)

    unfoldable pub _run_cleanup_job : Bool → Plane R → Plane R
    unfolding gated task
    _run_cleanup_job maintenance p =
        gated "cleanup" (task "cleanup_task" []) (_gate_pass maintenance p)

    unfoldable pub _run_reconcile_job : Bool → Plane R → Plane R
    unfolding gated task
    _run_reconcile_job maintenance p =
        gated "reconcile" (task "reconcile_all_task" []) (_gate_pass maintenance p)

    -- The reaper runs in maintenance mode as well.
    unfoldable pub _run_reaper_job : Plane R → Plane R
    unfolding task
    _run_reaper_job p = job_pass_lock now "reaper" (task "reap_pending_task" []) p

    -- `text_of` is Python's `str` on an id.
    unfoldable pub _run_sync_for_group : (ℕ → String) → Bool → ℕ → ℕ → Plane R → Plane R
    unfolding gated task
    _run_sync_for_group text_of maintenance sync_group_id concurrency p =
        gated (str_append "sync_group_" (text_of sync_group_id))
          (task "sync_group_task" (number sync_group_id ∷ number concurrency ∷ []))
          (_gate_pass maintenance p)

    unfoldable pub _run_freshness_for_group : (ℕ → String) → Bool → ℕ → ℕ → Plane R → Plane R
    unfolding gated task
    _run_freshness_for_group text_of maintenance sync_group_id concurrency p =
        gated (str_append "freshness_group_" (text_of sync_group_id))
          (task "freshness_group_task" (number sync_group_id ∷ number concurrency ∷ []))
          (_gate_pass maintenance p)
