-- ===== src/Mirroring/Runs/Traced.antt =====
-- What every sequence of operations on pipeline runs keeps
-- (backend/app/services/pipeline/_runs.py).
use big_bug.Prelude.{
  ℕ, zero, suc, ◌+◌, String, ◌≡◌, refl, ap, ◌∙◌, subst, inl, inr, Bool, true, not, ◌&&◌, ◌||◌,
  Option, none, some, List, [], ◌∷◌, arith, ltb, text_keys, number_keys, ◌==◌, is_some,
  Option-cases, all, find, all-append, find_sound, unique, unique-append_one, sequence-fresh,
  sequence-next, unique-overwrite, Result, ok_of_bind, ok_injective, all-update_where, all-find, ok,
}
use big_bug.Identity.{ResourceProvider}
use big_bug.Mirroring.{PipelineRun, Db, MirroringError, or_404, refers}
use big_bug.Mirroring.Runs.{
  status_ok, status_failed, status_in_progress, recorded_run, trigger_pipeline, _get_run_or_404,
  _get_gitlab_provider_or_404, flag_of, with_status, save_pipeline_run, monitored_id, observed,
  is_pipeline, update_pipeline_status,
}

-- A run without a pipeline in GitLab has failed, one that succeeded has an end, and one in progress
-- has a start.
abbrev pub traced : PipelineRun → Bool
traced r =
    (is_some r.gitlab_pipeline_id || r.status_flag == status_failed)
    && (not (r.status_flag == status_ok) || is_some r.finished_at)
    && (not (r.status_flag == status_in_progress) || is_some r.started_at)

pub record IsTraced (db : Db) : Type 0 where
  pub run_ids : unique (λ (r : PipelineRun). r.id) db.pipeline_runs ≡ true
  pub run_sequence : all (λ (r : PipelineRun). ltb r.id db.next_run_id) db.pipeline_runs ≡ true
  pub runs : all traced db.pipeline_runs ≡ true

recorded-traced :
    (id now provider_id : ℕ) (project : String) (answer : Option ℕ)
    → traced (recorded_run id now provider_id project answer) ≡ true
recorded-traced id now provider_id project none = refl
recorded-traced id now provider_id project (some n) = refl

with_status-traced :
    (status : String) (now : ℕ) (r : PipelineRun)
    → is_some r.gitlab_pipeline_id ≡ true
    → traced (with_status status now r) ≡ true
unfolding with_status flag_of
with_status-traced status now r h = elim (Option-cases r.started_at) [
  | inl absent ↦ rw absent (ground arith)
  | inr (at, there) ↦ rw there (ground arith)
]

save_pipeline_run-IsTraced :
    (db : Db) (row : PipelineRun)
    → ltb row.id db.next_run_id ≡ true
    → traced row ≡ true
    → IsTraced db
    → IsTraced (save_pipeline_run row db)
save_pipeline_run-IsTraced db row below t s = record {
  run_ids = unique-overwrite (λ (r : PipelineRun). r.id) row db.pipeline_runs s.run_ids;
  run_sequence = all-update_where _ _ (λ _. row) db.pipeline_runs (λ x q h. below) s.run_sequence;
  runs = all-update_where traced _ (λ _. row) db.pipeline_runs (λ x q h. t) s.runs;
}

or_404_lem :
    {A : Type 0} (o : Option A) {row : A}
    → ◌≡◌ {A = Result MirroringError A} (or_404 o) (ok row)
    → o ≡ some row
or_404_lem none h = cc
or_404_lem (some x) h = ap some (ok_injective h)

pub found_run :
    (db : Db) (run_id : ℕ) {run : PipelineRun}
    → _get_run_or_404 db run_id ≡ ok run
    → IsTraced db
    → ltb run.id db.next_run_id ≡ true
unfolding _get_run_or_404
found_run db run_id h s =
    all-find (λ (r : PipelineRun). ltb r.id db.next_run_id) (λ r. r.id == run_id) db.pipeline_runs
      s.run_sequence (or_404_lem (find (λ r. r.id == run_id) db.pipeline_runs) h)

pub trigger_pipeline-IsTraced :
    (providers : List ResourceProvider) (create : ResourceProvider → String → Option ℕ) (now : ℕ)
    (provider_id : ℕ) (project : String) (db : Db) {run : PipelineRun} {db' : Db}
    → trigger_pipeline providers create now provider_id project db ≡ ok (run, db')
    → IsTraced db
    → IsTraced db'
unfolding trigger_pipeline
trigger_pipeline-IsTraced providers create now provider_id project db h s =
    let (provider, _, h1) = ok_of_bind (_get_gitlab_provider_or_404 providers provider_id) _ h in
    let row : PipelineRun =
      recorded_run db.next_run_id now provider.id project (create provider project) in
    let below : ltb db.next_run_id (db.next_run_id + 1) ≡ true = ground arith in
    subst IsTraced (ap (λ r. r.1) (ok_injective h1)) (record {
      run_ids =
          unique-append_one (λ (r : PipelineRun). r.id) db.pipeline_runs row s.run_ids
            (sequence-fresh (λ (r : PipelineRun). r.id) db.next_run_id db.pipeline_runs
              s.run_sequence);
      run_sequence =
          all-append (λ (r : PipelineRun). ltb r.id (db.next_run_id + 1)) db.pipeline_runs
            (row ∷ [])
          ∙ rw
              (
                sequence-next (λ (r : PipelineRun). r.id) db.next_run_id db.pipeline_runs
                    s.run_sequence,
                below,
              )
              refl;
      runs =
          all-append traced db.pipeline_runs (row ∷ [])
          ∙ rw
              (
                s.runs,
                recorded-traced db.next_run_id now provider.id project (create provider project),
              )
              refl;
    })

-- What an operation on one run saves.
pub observed-traced :
    (providers : List ResourceProvider) (answer : Option String) (now : ℕ) (r : PipelineRun)
    → is_some r.gitlab_pipeline_id ≡ true
    → traced (observed providers answer now r) ≡ true
observed-traced providers none now r h = ground arith
observed-traced providers (some status) now r h = with_status-traced status now r h

pub with_saved-IsTraced :
    (db : Db) (run row : PipelineRun) {run' : PipelineRun} {db' : Db}
    → row.id ≡ run.id
    → ltb run.id db.next_run_id ≡ true
    → traced row ≡ true
    → ◌≡◌ {A = Result MirroringError (PipelineRun × Db)}
        (ok (row, save_pipeline_run row db))
        (ok (run', db'))
    → IsTraced db
    → IsTraced db'
with_saved-IsTraced db run row same below t h s =
    subst IsTraced (ap (λ r. r.1) (ok_injective h))
      (save_pipeline_run-IsTraced db row (rw same below) t s)

pub monitored_id_lem : (o : Option ℕ) {n : ℕ} → monitored_id o ≡ ok n → is_some o ≡ true
monitored_id_lem none h = cc
monitored_id_lem (some zero) h = cc
monitored_id_lem (some (suc k)) h = refl

refers-is_some : (o : Option ℕ) (id : ℕ) → refers o id ≡ true → is_some o ≡ true
refers-is_some none id h = h
refers-is_some (some k) id h = refl

pub update_pipeline_status-IsTraced :
    (status : String) (now pipeline_id : ℕ) (db : Db)
    → IsTraced db
    → IsTraced (update_pipeline_status status now pipeline_id db)
unfolding update_pipeline_status with_status
update_pipeline_status-IsTraced status now pipeline_id db s =
    elim (Option-cases (find (is_pipeline pipeline_id) db.pipeline_runs)) [
      | inl absent ↦ rw absent s
      | inr (run, there) ↦ rw there (
          save_pipeline_run-IsTraced db (with_status status now run)
            (all-find (λ (r : PipelineRun). ltb r.id db.next_run_id) (is_pipeline pipeline_id)
              db.pipeline_runs s.run_sequence there)
            (with_status-traced status now run (
              refers-is_some run.gitlab_pipeline_id pipeline_id
                (find_sound (is_pipeline pipeline_id) db.pipeline_runs there)))
            s)
    ]
