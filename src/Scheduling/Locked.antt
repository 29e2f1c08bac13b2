-- ===== src/Scheduling/Locked.antt =====
-- What a pass under its lock does (backend/app/tasks/pass_lock.py, backend/app/services/scheduler.py).
use big_bug.Prelude.{
  ℕ, String, ◌≡◌, refl, sym, ap, ◌∙◌, subst, inl, inr, Bool, true, false, not, none, [], arith,
  if◌then◌else◌, text_keys, number_keys, ◌==◌, Bool-cases,
}
use big_bug.SyncRuns.{Settings, Store, Reachable, enqueue}
use big_bug.Scheduling.{Redis, IsRedis}
use big_bug.Scheduling.Passes.{
  Plane, lock_key, lock_ttl, locked, job_pass_lock, _gate_pass, gated, task, _run_sync_jobs,
}

module _ {R : Type 0} (redis : Redis R) (laws : IsRedis redis) where
  locked_lem :
      (now : ℕ) (name : String) (body : Store → Store) (p : Plane R) (got : Bool) (r : R)
      → got ≡ not (redis.exists now (lock_key name) p.redis)
      → (redis.exists now (lock_key name) p.redis ≡ true → r ≡ p.redis)
      → ((key : String)
          → (lock_key name == key) ≡ false
          → redis.exists now key r ≡ redis.exists now key p.redis)
      → ((locked redis name body (got, r) p).store
          ≡ (if redis.exists now (lock_key name) p.redis then p.store else body p.store))
        × ((key : String)
            → redis.exists now key (locked redis name body (got, r) p).redis
              ≡ redis.exists now key p.redis)
  unfolding locked
  locked_lem now name body p false r e same others =
      let taken : redis.exists now (lock_key name) p.redis ≡ true = ground arith in
      (rw taken refl, λ key. ap (redis.exists now key) (same taken))
  locked_lem now name body p true r e same others =
      let free : redis.exists now (lock_key name) p.redis ≡ false = ground arith in
      (
        rw free refl,
        λ key. laws.deleted now (lock_key name) key r ∙ elim (Bool-cases (lock_key name == key)) [
          | inl h ↦
              let it = (text_keys.agrees (lock_key name) key).0 h in
              rw h (sym (subst (λ k. redis.exists now k p.redis ≡ false) it free))
          | inr h ↦ rw h (others key h)
        ],
      )

  -- With the laws of Redis, a pass under a lock runs its body exactly when no other pass holds the lock
  -- at that time, and leaves the lock, like every other, held or free as it was.
  pub job_pass_lock_exact :
      (now : ℕ) (name : String) (body : Store → Store) (p : Plane R)
      → ((job_pass_lock redis now name body p).store
          ≡ (if redis.exists now (lock_key name) p.redis then p.store else body p.store))
        × ((key : String)
            → redis.exists now key (job_pass_lock redis now name body p).redis
              ≡ redis.exists now key p.redis)
  unfolding job_pass_lock
  job_pass_lock_exact now name body p =
      let key = lock_key name in
      locked_lem now name body p (redis.set_nx now key lock_ttl p.redis).0
        (redis.set_nx now key lock_ttl p.redis).1 (laws.acquires now key lock_ttl p.redis)
        (laws.refused now key lock_ttl p.redis)
        (λ other ne. laws.others now now key other lock_ttl p.redis ne)

  -- With the laws of Redis and outside of maintenance, two sync passes that fire one after the other
  -- at the same time, while no third holds the lock, both enqueue: the lock is given back in between.
  pub _run_sync_jobs_twice :
      (settings : Settings) (up : Reachable) (now : ℕ) (p : Plane R)
      → redis.exists now (lock_key "sync_all") p.redis ≡ false
      → (_run_sync_jobs redis settings up now false
          (_run_sync_jobs redis settings up now false p)).store
        ≡ enqueue settings up now "sync_all_task" [] [] none none
            (enqueue settings up now "sync_all_task" [] [] none none p.store)
  unfolding _run_sync_jobs gated task _gate_pass
  _run_sync_jobs_twice settings up now p free =
      let body = task redis settings up now "sync_all_task" [] in
      let first =
        job_pass_lock redis now "sync_all" body (record p { maintenance_logged = false }) in
      let (a, kept) =
        job_pass_lock_exact now "sync_all" body (record p { maintenance_logged = false }) in
      let (b, _) =
        job_pass_lock_exact now "sync_all" body (record first { maintenance_logged = false }) in
      b ∙ (rw (kept (lock_key "sync_all")) (rw free (ap body (a ∙ (rw free refl)))))
