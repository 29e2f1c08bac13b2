-- ===== src/Mirroring/Runs.antt =====
-- Runs of GitLab pipelines (backend/app/services/pipeline/_runs.py, with the status map of _status.py
-- and the provider look-up of backend/app/services/gitlab_projects/_clients.py). The rows of the
-- resource providers are an argument. What python-gitlab answers for a provider is a parameter:
-- `create` the id of a new pipeline, `status_of` the status of a pipeline in lower case, `accepts`
-- whether a request to cancel or to retry succeeds; none and false stand for a GitlabError.
pub mod Traced
pub mod Steps
use big_bug.Prelude.{
  ℕ, zero, suc, ◌+◌, String, Bool, true, false, not, ◌&&◌, ◌||◌, Option, none, some, List, [], ◌∷◌,
  ◌++◌, if◌then◌else◌, text_keys, number_keys, ◌==◌, find, overwrite, Result, guard, ◌>>=◌, ◌>>◌,
  ok, err,
}
use big_bug.Identity.{ProviderSubtype, gitlab, ResourceProvider}
use big_bug.Mirroring.{
  PipelineRun, Db, MirroringError, domain, bad_request, not_found, or_404, refers,
}
use big_bug.Mirroring.Mirrors.{status_pending}

abbrev pub status_ok : ℕ
status_ok = 0

abbrev pub status_failed : ℕ
status_failed = 1

abbrev pub status_warning : ℕ
status_warning = 2

abbrev pub status_in_progress : ℕ
status_in_progress = 3

abbrev pub is_gitlab : ProviderSubtype → Bool
is_gitlab gitlab = true
is_gitlab other = false

-- A provider that is not of GitLab is answered with 422.
unfoldable pub _get_gitlab_provider_or_404 :
    List ResourceProvider → ℕ → Result MirroringError ResourceProvider
_get_gitlab_provider_or_404 providers id = do
  provider ← or_404 (find (λ p. p.id == id && not p.is_deleted) providers)
  guard (is_gitlab provider.subtype) (domain 422)
  ok provider

-- The run that `trigger_pipeline` records, for the id of GitLab's pipeline or for its error.
abbrev pub recorded_run : ℕ → ℕ → ℕ → String → Option ℕ → PipelineRun
recorded_run id now provider_id project answer = record {
  id = id;
  provider_id = some provider_id;
  gitlab_project_id = project;
  gitlab_pipeline_id = answer;
  pipeline_id = none;
  status_flag = elim answer [ none ↦ status_failed | some pipeline_id ↦ status_in_progress ];
  started_at = elim answer [ none ↦ none | some pipeline_id ↦ some now ];
  finished_at = none;
}

module _ (providers : List ResourceProvider) (create : ResourceProvider → String → Option ℕ)
    (now : ℕ) where
  unfoldable pub trigger_pipeline : ℕ → String → Db → Result MirroringError (PipelineRun × Db)
  unfolding _get_gitlab_provider_or_404
  trigger_pipeline provider_id project db = do
    provider ← _get_gitlab_provider_or_404 providers provider_id
    let run : PipelineRun =
        recorded_run db.next_run_id now provider.id project (create provider project)
    ok (
      run,
      record db { pipeline_runs = db.pipeline_runs ++ run ∷ []; next_run_id = db.next_run_id + 1 },
    )

unfoldable pub _get_run_or_404 : Db → ℕ → Result MirroringError PipelineRun
_get_run_or_404 db run_id = or_404 (find (λ r. r.id == run_id) db.pipeline_runs)

-- `GITLAB_STATUS_MAP.get(status, STATUS_PENDING)`
unfoldable pub flag_of : String → ℕ
flag_of status =
    if status == "success"
    then status_ok
    else if status == "failed" || status == "canceled"
    then status_failed
    else if status == "warning" || status == "skipped"
    then status_warning
    else if status == "running"
    then status_in_progress
    else status_pending

abbrev pub is_final : String → Bool
is_final status = status == "success" || status == "failed" || status == "canceled"

abbrev pub given_first : Option ℕ → ℕ → Option ℕ
given_first none now = some now
given_first (some at) now = some at

-- What a status of GitLab changes in a run.
unfoldable pub with_status : String → ℕ → PipelineRun → PipelineRun
unfolding flag_of
with_status status now r = record r {
  status_flag = flag_of status;
  started_at = if status == "running" then given_first r.started_at now else r.started_at;
  finished_at = if is_final status then some now else r.finished_at;
}

abbrev pub with_flag : ℕ → PipelineRun → PipelineRun
with_flag flag r = record r { status_flag = flag }

abbrev pub save_pipeline_run : PipelineRun → Db → Db
save_pipeline_run r db = record db {
  pipeline_runs = overwrite (λ (x : PipelineRun). x.id) r db.pipeline_runs;
}

abbrev pub with_saved : PipelineRun → Db → PipelineRun × Db
with_saved r db = (r, save_pipeline_run r db)

-- An id that is 0 counts as missing.
abbrev pub monitored_id : Option ℕ → Result MirroringError ℕ
monitored_id none = err bad_request
monitored_id (some zero) = err bad_request
monitored_id (some (suc n)) = ok (suc n)

module _ (providers : List ResourceProvider) where
  unfoldable pub _get_client_for_run : PipelineRun → Result MirroringError ResourceProvider
  unfolding _get_gitlab_provider_or_404
  _get_client_for_run r = elim r.provider_id [
    | none ↦ err not_found
    | some id ↦ _get_gitlab_provider_or_404 providers id
  ]

  abbrev pub observed : Option String → ℕ → PipelineRun → PipelineRun
  observed none now r = with_flag status_warning r
  observed (some status) now r = with_status status now r

  unfoldable pub monitor_pipeline_status :
      (ResourceProvider → ℕ → Option String) → ℕ → ℕ → Db → Result MirroringError (PipelineRun × Db)
  unfolding _get_run_or_404 _get_client_for_run with_status
  monitor_pipeline_status status_of now run_id db = do
    run ← _get_run_or_404 db run_id
    pipeline_id ← monitored_id run.gitlab_pipeline_id
    provider ← _get_client_for_run run
    ok (with_saved (observed (status_of provider pipeline_id) now run) db)

  -- The shape that `cancel_pipeline` and `retry_pipeline` share: `change` is what the answer to the
  -- request changes.
  module _ (accepts : ResourceProvider → ℕ → Bool) (change : Bool → PipelineRun → PipelineRun) where
    unfoldable pub ask_for_run :
        PipelineRun → Option ℕ → Db → Result MirroringError (PipelineRun × Db)
    unfolding _get_client_for_run
    ask_for_run run none db = ok (with_saved (with_flag status_failed run) db)
    ask_for_run run (some pipeline_id) db = do
      provider ← _get_client_for_run run
      ok (with_saved (change (accepts provider pipeline_id) run) db)

    unfoldable pub ask_for : ℕ → Db → Result MirroringError (PipelineRun × Db)
    unfolding _get_run_or_404 ask_for_run
    ask_for run_id db = do
      run ← _get_run_or_404 db run_id
      ask_for_run run run.gitlab_pipeline_id db

abbrev pub when_cancelled : ℕ → Bool → PipelineRun → PipelineRun
when_cancelled now false r = with_flag status_warning r
when_cancelled now true r = record r { status_flag = status_failed; finished_at = some now }

abbrev pub when_retried : ℕ → Bool → PipelineRun → PipelineRun
when_retried now false r = with_flag status_warning r
when_retried now true r = record r {
  status_flag = status_in_progress;
  started_at = some now;
  finished_at = none;
}

module _ (providers : List ResourceProvider) (accepts : ResourceProvider → ℕ → Bool) (now : ℕ) where
  unfoldable pub cancel_pipeline : ℕ → Db → Result MirroringError (PipelineRun × Db)
  unfolding ask_for
  cancel_pipeline = ask_for providers accepts (when_cancelled now)

  unfoldable pub retry_pipeline : ℕ → Db → Result MirroringError (PipelineRun × Db)
  unfolding ask_for
  retry_pipeline = ask_for providers accepts (when_retried now)

abbrev pub is_pipeline : ℕ → PipelineRun → Bool
is_pipeline id r = refers r.gitlab_pipeline_id id

abbrev pub saved_status : String → ℕ → Option PipelineRun → Db → Db
saved_status status now none db = db
saved_status status now (some run) db = save_pipeline_run (with_status status now run) db

-- The webhook: the first row with the pipeline's id, whatever its provider.
unfoldable pub update_pipeline_status : String → ℕ → ℕ → Db → Db
unfolding with_status
update_pipeline_status status now pipeline_id db =
    saved_status status now (find (is_pipeline pipeline_id) db.pipeline_runs) db
