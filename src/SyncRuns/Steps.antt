-- ===== src/SyncRuns/Steps.antt =====
-- Interleavings of schedulers, workers and administrators over the tracked runs
-- (backend/app/tasks/run_tracking.py, backend/app/tasks/enqueue.py, backend/app/api/sync_runs.py).
pub mod Laws
use big_bug.Prelude.{
  ℕ, String, ◌≡◌, Bool, Option, List, [], ◌∷◌, ◌++◌, Memᴰ, text_keys, number_keys, ◌==◌,
  delete_where, ok,
}
use big_bug.SyncRuns.{Settings, Store, SyncRun, Argument, Reachable, enqueue}
use big_bug.SyncRuns.Tracking.{Tracked, tracked, Task, adopt, pulse, record_success, record_failure}
use big_bug.SyncRuns.Admin.{retry_sync_run, retry_all_failed, requeue_sync_run}

-- The store, and the wrappers of the bodies that run.
pub record World : Type 0 where
  pub store : Store
  pub live : List Tracked

abbrev pub leaves : Tracked → List Tracked → List Tracked
leaves t = delete_where (λ x. x.run_id == t.run_id)

-- A worker starts with the queued id and the failed row that it selected before: any other step may
-- lie between the selections and the start.
pub data Step (settings : Settings) (known : String → Bool) (w : World) : World → Type 0 where
  enqueued :
      (up : Reachable) (now : ℕ) (name : String) (args : List Argument)
      (kwargs : List (String × Argument)) (entity_type : Option String) (entity_id : Option ℕ)
      → Step settings known w (record w {
        store = enqueue settings up now name args kwargs entity_type entity_id w.store;
      })
  began :
      (task : Task) (now : ℕ) (selected : Option ℕ) (read : Option SyncRun)
      → Step settings known w (record {
        store = (adopt settings task now selected read w.store).1;
        live = w.live ++ tracked (adopt settings task now selected read w.store).0 ∷ [];
      })
  pulsed :
      (now : ℕ) (t : Tracked)
      → Memᴰ t w.live
      → Step settings known w (record w { store = pulse now t.run_id w.store })
  succeeds :
      (now : ℕ) (t : Tracked)
      → Memᴰ t w.live
      → Step settings known w
          (record { store = record_success now t w.store; live = leaves t w.live })
  fails :
      (now : ℕ) (error : String) (t : Tracked)
      → Memᴰ t w.live
      → Step settings known w
          (record { store = record_failure now error t w.store; live = leaves t w.live })
  dies : (t : Tracked) → Memᴰ t w.live → Step settings known w (record w { live = leaves t w.live })
  retried :
      (up : Reachable) (now run_id : ℕ) {r : SyncRun} {s : Store}
      → retry_sync_run settings known up now run_id w.store ≡ ok (r, s)
      → Step settings known w (record w { store = s })
  drained :
      (up : Reachable) (now : ℕ)
      → Step settings known w
          (record w { store = (retry_all_failed settings known up now w.store).1 })
  requeued :
      (up : Reachable) (now run_id : ℕ)
      → Step settings known w
          (record w { store = (requeue_sync_run settings known up now run_id w.store).1 })

pub data Reach (settings : Settings) (known : String → Bool) (w : World) : World → Type 0 where
  here : Reach settings known w w
  next :
      {mid last : World}
      → Reach settings known w mid
      → Step settings known mid last
      → Reach settings known w last
