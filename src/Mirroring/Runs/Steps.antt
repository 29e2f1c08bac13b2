-- ===== src/Mirroring/Runs/Steps.antt =====
-- Sequences of operations on pipeline runs (backend/app/services/pipeline/_runs.py).
use big_bug.Prelude.{
  ℕ, String, ◌≡◌, refl, Bool, true, Option, none, some, List, arith, ltb, text_keys, number_keys,
  is_some, ok_of_bind, ok,
}
use big_bug.Identity.{ResourceProvider}
use big_bug.Mirroring.{PipelineRun, Db}
use big_bug.Mirroring.Runs.{
  status_failed, trigger_pipeline, with_flag, with_status, _get_run_or_404, _get_client_for_run,
  monitored_id, observed, monitor_pipeline_status, when_cancelled, ask_for, ask_for_run,
  cancel_pipeline, when_retried, retry_pipeline, update_pipeline_status,
}
use big_bug.Mirroring.Runs.Traced.{
  traced, IsTraced, found_run, trigger_pipeline-IsTraced, observed-traced, with_saved-IsTraced,
  monitored_id_lem, update_pipeline_status-IsTraced,
}

module _ (providers : List ResourceProvider) where
  observed-id :
      (answer : Option String) (now : ℕ) (r : PipelineRun)
      → (observed providers answer now r).id ≡ r.id
  unfolding with_status
  observed-id none now r = refl
  observed-id (some status) now r = refl

  monitor_pipeline_status-IsTraced :
      (status_of : ResourceProvider → ℕ → Option String) (now run_id : ℕ) (db : Db)
      {run' : PipelineRun} {db' : Db}
      → monitor_pipeline_status providers status_of now run_id db ≡ ok (run', db')
      → IsTraced db
      → IsTraced db'
  unfolding monitor_pipeline_status with_status
  monitor_pipeline_status-IsTraced status_of now run_id db h s =
      let (run, found, h1) = ok_of_bind (_get_run_or_404 db run_id) _ h in
      let (pipeline_id, given, h2) = ok_of_bind (monitored_id run.gitlab_pipeline_id) _ h1 in
      let (provider, _, h3) = ok_of_bind (_get_client_for_run providers run) _ h2 in
      let known = monitored_id_lem run.gitlab_pipeline_id given in
      let row = observed providers (status_of provider pipeline_id) now run in
      with_saved-IsTraced db run (observed providers (status_of provider pipeline_id) now run)
        (observed-id (status_of provider pipeline_id) now run) (found_run db run_id found s)
        (observed-traced providers (status_of provider pipeline_id) now run known) h3 s

-- A request whose answers keep the rules of the run.
module _ (providers : List ResourceProvider) (accepts : ResourceProvider → ℕ → Bool)
    (change : Bool → PipelineRun → PipelineRun)
    (keeps_id : (b : Bool) (r : PipelineRun) → (change b r).id ≡ r.id)
    (keeps : (b : Bool) (r : PipelineRun)
      → is_some r.gitlab_pipeline_id ≡ true
      → traced (change b r) ≡ true) where
  ask_for_run-IsTraced :
      (db : Db) (run : PipelineRun) (o : Option ℕ) {run' : PipelineRun} {db' : Db}
      → run.gitlab_pipeline_id ≡ o
      → ltb run.id db.next_run_id ≡ true
      → ask_for_run providers accepts change run o db ≡ ok (run', db')
      → IsTraced db
      → IsTraced db'
  unfolding ask_for_run
  ask_for_run-IsTraced db run none e below h s =
      with_saved-IsTraced db run (with_flag status_failed run) refl below (ground arith) h s
  ask_for_run-IsTraced db run (some n) e below h s =
      let (provider, _, h1) = ok_of_bind (_get_client_for_run providers run) _ h in
      with_saved-IsTraced db run (change (accepts provider n) run)
        (keeps_id (accepts provider n) run) below (keeps (accepts provider n) run (rw e refl)) h1 s

  ask_for-IsTraced :
      (run_id : ℕ) (db : Db) {run' : PipelineRun} {db' : Db}
      → ask_for providers accepts change run_id db ≡ ok (run', db')
      → IsTraced db
      → IsTraced db'
  unfolding ask_for
  ask_for-IsTraced run_id db h s =
      let (run, found, h1) = ok_of_bind (_get_run_or_404 db run_id) _ h in
      ask_for_run-IsTraced db run run.gitlab_pipeline_id refl (found_run db run_id found s) h1 s

cancel_pipeline-IsTraced :
    (providers : List ResourceProvider) (accepts : ResourceProvider → ℕ → Bool) (now run_id : ℕ)
    (db : Db) {run : PipelineRun} {db' : Db}
    → cancel_pipeline providers accepts now run_id db ≡ ok (run, db')
    → IsTraced db
    → IsTraced db'
unfolding cancel_pipeline
cancel_pipeline-IsTraced providers accepts now =
    ask_for-IsTraced providers accepts (when_cancelled now) (λ b r. ground arith)
      (λ b r h. ground arith)

retry_pipeline-IsTraced :
    (providers : List ResourceProvider) (accepts : ResourceProvider → ℕ → Bool) (now run_id : ℕ)
    (db : Db) {run : PipelineRun} {db' : Db}
    → retry_pipeline providers accepts now run_id db ≡ ok (run, db')
    → IsTraced db
    → IsTraced db'
unfolding retry_pipeline
retry_pipeline-IsTraced providers accepts now =
    ask_for-IsTraced providers accepts (when_retried now) (λ b r. ground arith)
      (λ b r h. ground arith)

-- What a change of the runs is: the providers and the answers of GitLab may differ from one to the
-- next.
pub data Step (db : Db) : Db → Type 0 where
  triggered :
      (providers : List ResourceProvider) (create : ResourceProvider → String → Option ℕ)
      (now provider_id : ℕ) (project : String) {run : PipelineRun} {db' : Db}
      → trigger_pipeline providers create now provider_id project db ≡ ok (run, db')
      → Step db db'
  monitored :
      (providers : List ResourceProvider) (status_of : ResourceProvider → ℕ → Option String)
      (now run_id : ℕ) {run : PipelineRun} {db' : Db}
      → monitor_pipeline_status providers status_of now run_id db ≡ ok (run, db')
      → Step db db'
  run_cancelled :
      (providers : List ResourceProvider) (accepts : ResourceProvider → ℕ → Bool) (now run_id : ℕ)
      {run : PipelineRun} {db' : Db}
      → cancel_pipeline providers accepts now run_id db ≡ ok (run, db')
      → Step db db'
  run_retried :
      (providers : List ResourceProvider) (accepts : ResourceProvider → ℕ → Bool) (now run_id : ℕ)
      {run : PipelineRun} {db' : Db}
      → retry_pipeline providers accepts now run_id db ≡ ok (run, db')
      → Step db db'
  reported :
      (status : String) (now pipeline_id : ℕ)
      → Step db (update_pipeline_status status now pipeline_id db)

pub data Reach (db : Db) : Db → Type 0 where
  here : Reach db db
  next : {mid last : Db} → Reach db mid → Step mid last → Reach db last

Step-IsTraced : (db : Db) {db' : Db} → Step db db' → IsTraced db → IsTraced db'
Step-IsTraced db (triggered providers create now provider_id project e) s =
    trigger_pipeline-IsTraced providers create now provider_id project db e s
Step-IsTraced db (monitored providers status_of now run_id e) s =
    monitor_pipeline_status-IsTraced providers status_of now run_id db e s
Step-IsTraced db (run_cancelled providers accepts now run_id e) s =
    cancel_pipeline-IsTraced providers accepts now run_id db e s
Step-IsTraced db (run_retried providers accepts now run_id e) s =
    retry_pipeline-IsTraced providers accepts now run_id db e s
Step-IsTraced db (reported status now pipeline_id) s =
    update_pipeline_status-IsTraced status now pipeline_id db s

-- From tables with unique run ids below the sequence, in which a run without a pipeline in GitLab has
-- failed, a run that succeeded has an end and a run in progress has a start, every sequence of runs
-- triggered by `trigger_pipeline`, status checks, cancellations, retries and webhook reports, whatever
-- GitLab answers to each, leads to such tables again.
pub Reach-IsTraced : (db : Db) {db' : Db} → Reach db db' → IsTraced db → IsTraced db'
Reach-IsTraced db here s = s
Reach-IsTraced db (next before step) s = Step-IsTraced _ step (Reach-IsTraced db before s)
