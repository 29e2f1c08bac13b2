-- ===== src/SyncRuns/Kept/Admin.antt =====
-- The admin endpoints keep the store of tracked runs in shape (backend/app/api/sync_runs.py).
use big_bug.Prelude.{
  ℕ, ◌≤◌, String, ◌≡◌, refl, ap, ◌∙◌, subst, inl, inr, Bool, some, List, [], ◌∷◌, Memᴰ, arith, ltb,
  text_keys, number_keys, ◌==◌, Bool-cases, Option-cases, select, find, guard, ok_of_bind,
  ok_injective, mem-all, ok, err,
}
use big_bug.SyncRuns.{failed_permanent, is_stuck, Settings, Store, SyncRun, has_status, Reachable}
use big_bug.SyncRuns.Tracking.{Tracked, save_run}
use big_bug.SyncRuns.Admin.{
  _get_run, _reenqueue, retry_sync_run, retry_all_failed, requeue_sync_run, retry_runs, retry_one,
  requeue_run, requeue_found, answer_with, supersede, Response, recoverable,
}
use big_bug.SyncRuns.Kept.{IsTracked, row_fits, saved-IsTracked}
use big_bug.SyncRuns.Kept.Starts.{enqueue-IsTracked}
use big_bug.SyncRuns.Kept.Waiting.{find_mem}

module _ (settings : Settings) (known : String → Bool) (budget : 1 ≤ settings.task_max_retries)
    (live : List Tracked) where
  reenqueue-IsTracked :
      (up : Reachable) (now : ℕ) (run : SyncRun) (s : Store) {s' : Store}
      → _reenqueue settings known up now run s ≡ ok s'
      → IsTracked live s
      → IsTracked live s'
  unfolding _reenqueue
  reenqueue-IsTracked up now run s h k =
      let (_, _, e) = ok_of_bind (guard (known run.task_name) _) _ h in
      subst (IsTracked live) (ok_injective e) (
        enqueue-IsTracked settings up now run.task_name _ _ run.entity_type run.entity_id live s
          budget k)

  pub retry-IsTracked :
      (up : Reachable) (now run_id : ℕ) (s : Store) {r : SyncRun} {s' : Store}
      → retry_sync_run settings known up now run_id s ≡ ok (r, s')
      → IsTracked live s
      → IsTracked live s'
  unfolding retry_sync_run
  retry-IsTracked up now run_id s h k =
      let (run, found, h1) = ok_of_bind (_get_run settings known s run_id) _ h in
      let (_, _, h2) = ok_of_bind (guard (recoverable run.status) _) _ h1 in
      let (s2, done, h3) = ok_of_bind (_reenqueue settings known up now run s) _ h2 in
      subst (IsTracked live) (ap (λ p. p.1) (ok_injective h3))
        (reenqueue-IsTracked up now run s done k)

  retry_one-IsTracked :
      (st : ℕ × Store) (r : Response Store)
      → ((s' : Store) → r ≡ ok s' → IsTracked live s')
      → IsTracked live st.1
      → IsTracked live (retry_one settings known r st).1
  unfolding retry_one
  retry_one-IsTracked st (err e) done k = k
  retry_one-IsTracked st (ok s') done k = done s' refl

  retry_runs-IsTracked :
      (up : Reachable) (now : ℕ) (runs : List SyncRun) (st : ℕ × Store)
      → IsTracked live st.1
      → IsTracked live (retry_runs settings known up now runs st).1
  unfolding retry_runs
  retry_runs-IsTracked up now [] st k = k
  retry_runs-IsTracked up now (r ∷ runs) st k =
      retry_runs-IsTracked up now runs _
        (retry_one-IsTracked st _ (λ s' e. reenqueue-IsTracked up now r st.1 e k) k)

  pub retry_all-IsTracked :
      (up : Reachable) (now : ℕ) (s : Store)
      → IsTracked live s
      → IsTracked live (retry_all_failed settings known up now s).1
  unfolding retry_all_failed
  retry_all-IsTracked up now s k =
      retry_runs-IsTracked up now (select (has_status failed_permanent) s.runs) (0, s) k

  answer_with-IsTracked :
      (run : SyncRun) (s : Store) (r : Response Store)
      → ((s' : Store) → r ≡ ok s' → IsTracked live s')
      → IsTracked live s
      → IsTracked live (answer_with settings known run s r).1
  unfolding answer_with
  answer_with-IsTracked run s (err e) done k = k
  answer_with-IsTracked run s (ok s') done k = done s' refl

  superseded-IsTracked :
      (run : SyncRun) (s : Store)
      → Memᴰ run s.runs
      → IsTracked live s
      → IsTracked live (save_run (supersede settings known run) s)
  superseded-IsTracked run s m k =
      let below = mem-all (λ (x : SyncRun). ltb x.id s.next_run_id) s.runs m k.ids_drawn in
      let fit = mem-all row_fits s.runs m k.rows in
      saved-IsTracked live s (supersede settings known run) (ground arith) (ground arith)
        (λ t tm e. refl) k

  requeue_run-IsTracked :
      (up : Reachable) (now : ℕ) (run : SyncRun) (s : Store)
      → Memᴰ run s.runs
      → IsTracked live s
      → IsTracked live (requeue_run settings known up now run s).1
  unfolding requeue_run
  requeue_run-IsTracked up now run s m k =
      elim (Bool-cases (is_stuck settings now run.status run.heartbeat_at run.created_at)) [
        | inl e ↦
            let done = superseded-IsTracked run s m k in
            rw e
              (answer_with-IsTracked _ _ _ (λ s' e2. reenqueue-IsTracked up now run _ e2 done) done)
        | inr e ↦ rw e k
      ]

  requeue_found-IsTracked :
      (up : Reachable) (now : ℕ) (r : Response SyncRun) (s : Store)
      → ((run : SyncRun) → r ≡ ok run → Memᴰ run s.runs)
      → IsTracked live s
      → IsTracked live (requeue_found settings known up now r s).1
  unfolding requeue_found
  requeue_found-IsTracked up now (err e) s there k = k
  requeue_found-IsTracked up now (ok run) s there k =
      requeue_run-IsTracked up now run s (there run refl) k

  get_run_lem :
      (s : Store) (run_id : ℕ) (run : SyncRun)
      → _get_run settings known s run_id ≡ ok run
      → Memᴰ run s.runs
  unfolding _get_run
  get_run_lem s run_id run h = elim (Option-cases (find (λ (r : SyncRun). r.id == run_id) s.runs)) [
    | inl e ↦ ground arith
    | inr (x, e) ↦
        let same : x ≡ run = ground arith in
        find_mem (λ (r : SyncRun). r.id == run_id) s.runs (e ∙ ap some same)
  ]

  pub requeue-IsTracked :
      (up : Reachable) (now run_id : ℕ) (s : Store)
      → IsTracked live s
      → IsTracked live (requeue_sync_run settings known up now run_id s).1
  unfolding requeue_sync_run
  requeue-IsTracked up now run_id s k =
      requeue_found-IsTracked up now (_get_run settings known s run_id) s (get_run_lem s run_id) k
