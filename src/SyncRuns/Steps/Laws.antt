-- ===== src/SyncRuns/Steps/Laws.antt =====
-- The invariant of the tracked runs over all interleavings.
use big_bug.Prelude.{◌≤◌, String, Bool, text_keys, number_keys}
use big_bug.SyncRuns.{Settings}
use big_bug.SyncRuns.Steps.{
  World, Step, Reach, enqueued, began, pulsed, succeeds, fails, dies, retried, drained, requeued,
  here, next,
}
use big_bug.SyncRuns.Kept.{IsTracked}
use big_bug.SyncRuns.Kept.Starts.{enqueue-IsTracked, Unchanged, adopt-IsTracked}
use big_bug.SyncRuns.Kept.Ends.{
  pulse-IsTracked, success-IsTracked, failure-IsTracked, death-IsTracked,
}
use big_bug.SyncRuns.Kept.Admin.{retry-IsTracked, retry_all-IsTracked, requeue-IsTracked}

-- A worker that reuses a failed row finds it as it has read it.
unfoldable pub Steady :
    {settings : Settings} {known : String → Bool} {w w' : World} → Step settings known w w' → Type 0
unfolding Unchanged
Steady {w = w} (began task now selected read) = Unchanged task read w.store
Steady other = Unit {0}

unfoldable pub Undisturbed :
    {settings : Settings} {known : String → Bool} {w w' : World}
    → Reach settings known w w'
    → Type 0
unfolding Steady
Undisturbed here = Unit {0}
Undisturbed (next before step) = Undisturbed before × Steady step

module _ (settings : Settings) (known : String → Bool)
    (budget : 1 ≤ settings.task_max_retries) where
  step-IsTracked :
      (w : World) {w' : World} (step : Step settings known w w')
      → Steady step
      → IsTracked w.live w.store
      → IsTracked w'.live w'.store
  unfolding Steady Unchanged
  step-IsTracked w (enqueued up now name args kwargs entity_type entity_id) e' k =
      enqueue-IsTracked settings up now name args kwargs entity_type entity_id w.live w.store budget
        k
  step-IsTracked w (began task now selected read) e k =
      adopt-IsTracked settings task now selected read w.live w.store budget e k
  step-IsTracked w (pulsed now t m) e' k = pulse-IsTracked now t.run_id w.live w.store k
  step-IsTracked w (succeeds now t m) e' k = success-IsTracked now t w.live w.store k
  step-IsTracked w (fails now error t m) e' k = failure-IsTracked now error t w.live w.store m k
  step-IsTracked w (dies t m) e' k = death-IsTracked t w.live w.store k
  step-IsTracked w (retried up now run_id e) e' k =
      retry-IsTracked settings known budget w.live up now run_id w.store e k
  step-IsTracked w (drained up now) e' k =
      retry_all-IsTracked settings known budget w.live up now w.store k
  step-IsTracked w (requeued up now run_id) e' k =
      requeue-IsTracked settings known budget w.live up now run_id w.store k

  -- When a task may be attempted at least once, and every worker that reuses a failed row finds it as
  -- it has read it, every interleaving of enqueued tasks, workers that start, pulse, succeed, fail or
  -- die, and administrators that retry or requeue, leads from a store in shape to a store in shape: no
  -- run is attempted more often than its budget, a failed run has attempts left and a permanently
  -- failed one has none, the times and the error of a row fit its status, ids are unique, no two live
  -- workers share a run, and the run of a live worker is running with the attempts that the worker
  -- read or was superseded. Between the selection of a queued row and its claim anything may happen.
  pub Reach-IsTracked :
      (w : World) {w' : World} (path : Reach settings known w w')
      → Undisturbed path
      → IsTracked w.live w.store
      → IsTracked w'.live w'.store
  unfolding Undisturbed
  Reach-IsTracked w here calm k = k
  Reach-IsTracked w (next before s) (calm, still) k =
      step-IsTracked _ s still (Reach-IsTracked w before calm k)
