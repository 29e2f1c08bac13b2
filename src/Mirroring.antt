-- ===== src/Mirroring.antt =====
-- The tables of git mirroring (backend/app/models: mirror.py, mirror_log.py, sync_group.py,
-- source_repository.py, source_group.py, pipeline.py, pipeline_run.py) and the queries that the services share
-- (backend/app/services/mirror.py, backend/app/services/pipeline/_configs.py). Time stamps are
-- natural numbers. Columns that no modelled operation reads or writes are left out.
pub mod Pipelines
pub mod Groups
pub mod Mirrors
pub mod Sound
pub mod Cleanup
pub mod Repositories
pub mod Runs
pub mod Sync
pub mod Steps
pub mod Assignment
mod Tests
use big_bug.Prelude.{
  ℕ, String, Bool, false, not, ◌&&◌, Option, none, some, List, [], ◌∷◌, text_keys, number_keys,
  ◌==◌, select, find, Result, ok, err,
}

pub record Mirror : Type 0 where
  pub id : ℕ
  pub source_repository_id : ℕ
  pub sync_group_id : Option ℕ
  pub target_namespace : String
  pub target_project_name : String
  pub target_project_id : Option String
  pub status_flag : ℕ
  pub status_text : String
  pub is_deleted : Bool
  pub deleted_at : Option ℕ

pub record MirrorLog : Type 0 where
  pub id : ℕ
  pub mirror_id : ℕ
  pub pipeline_run_id : Option ℕ
  pub status_flag : ℕ

-- The columns of a run that a synchronisation fills. A project is written by its digits.
pub record PipelineRun : Type 0 where
  pub id : ℕ
  pub provider_id : Option ℕ
  pub gitlab_project_id : String
  pub gitlab_pipeline_id : Option ℕ
  pub pipeline_id : Option ℕ
  pub status_flag : ℕ
  pub started_at : Option ℕ
  pub finished_at : Option ℕ

pub record SyncGroup : Type 0 where
  pub id : ℕ
  pub name : String
  pub description : Option String
  pub pipeline_id : Option ℕ
  pub is_default : Bool
  pub sync_cron : Option String
  pub sync_enabled : Bool
  pub sync_concurrency : ℕ
  pub freshness_cron : Option String
  pub freshness_enabled : Bool
  pub freshness_concurrency : ℕ
  pub is_deleted : Bool
  pub deleted_at : Option ℕ

pub record SourceRepository : Type 0 where
  pub id : ℕ
  pub source_group_id : Option ℕ
  pub full_name : String
  pub is_deleted : Bool
  pub deleted_at : Option ℕ

pub record SourceGroup : Type 0 where
  pub id : ℕ
  pub name : String
  pub is_deleted : Bool
  pub deleted_at : Option ℕ

pub record Pipeline : Type 0 where
  pub id : ℕ
  pub name : String
  pub description : Option String
  pub provider_id : Option ℕ
  pub is_default : Bool
  pub is_enabled : Bool
  pub is_deleted : Bool
  pub deleted_at : Option ℕ

pub record Db : Type 0 where
  pub mirrors : List Mirror
  pub mirror_logs : List MirrorLog
  pub sync_groups : List SyncGroup
  pub source_repositories : List SourceRepository
  pub source_groups : List SourceGroup
  pub pipelines : List Pipeline
  pub pipeline_runs : List PipelineRun
  pub next_mirror_id : ℕ
  pub next_group_id : ℕ
  pub next_pipeline_id : ℕ
  pub next_log_id : ℕ
  pub next_run_id : ℕ

-- What the operations raise: an error with its HTTP status, a `ValueError`, and what SQLAlchemy
-- raises when a query for one row finds several and when a unique column is violated.
pub data MirroringError : Type 0 where
  domain : ℕ → MirroringError
  value_error : MirroringError
  multiple_results_found : MirroringError
  integrity_error : MirroringError

abbrev pub not_found : MirroringError
not_found = domain 404

abbrev pub bad_request : MirroringError
bad_request = domain 400

abbrev pub conflict : MirroringError
conflict = domain 409

abbrev pub forbidden : MirroringError
forbidden = domain 403

-- What a call that commits more than once returns or raises, and the tables it leaves.
abbrev pub Call : Type 0 → Type 0
Call A = Result MirroringError A × Db

abbrev pub after : {A B : Type 0} → Call A → (A → Db → Call B) → Call B
after (err why, db) rest = (err why, db)
after (ok value, db) rest = rest value db

-- What holds of the tables that a first call leaves, and is kept by the rest, holds at the end.
pub after_lem :
    {A B : Type 0} (P : Db → Type 0) (c : Call A) (rest : A → Db → Call B)
    → P c.1
    → ((a : A) (db : Db) → P db → P (rest a db).1)
    → P (after c rest).1
after_lem P (err why, db) rest h k = h
after_lem P (ok value, db) rest h k = k value db h

-- A nullable foreign key that refers to the row `id`; `NULL` refers to none.
abbrev pub refers : Option ℕ → ℕ → Bool
refers none id = false
refers (some k) id = k == id

-- `scalar_one_or_none` of a query that no unique key restricts.
abbrev pub scalar_one_or_none {ℓ} : {A : Type ℓ} → List A → Result MirroringError (Option A)
scalar_one_or_none [] = ok none
scalar_one_or_none (x ∷ []) = ok (some x)
scalar_one_or_none (x ∷ y ∷ rows) = err multiple_results_found

abbrev pub or_404 {ℓ} : {A : Type ℓ} → Option A → Result MirroringError A
or_404 none = err not_found
or_404 (some row) = ok row

abbrev pub live_mirror : ℕ → Mirror → Bool
live_mirror id m = m.id == id && not m.is_deleted

abbrev pub live_group : ℕ → SyncGroup → Bool
live_group id g = g.id == id && not g.is_deleted

abbrev pub live_repository : ℕ → SourceRepository → Bool
live_repository id r = r.id == id && not r.is_deleted

unfoldable pub _get_mirror_or_404 : Db → ℕ → Result MirroringError Mirror
_get_mirror_or_404 db mirror_id = or_404 (find (live_mirror mirror_id) db.mirrors)

unfoldable pub _get_source_repo_or_404 : Db → ℕ → Result MirroringError SourceRepository
_get_source_repo_or_404 db sr_id = or_404 (find (live_repository sr_id) db.source_repositories)

unfoldable pub _get_sync_group_or_404 : Db → ℕ → Result MirroringError SyncGroup
_get_sync_group_or_404 db sg_id = or_404 (find (live_group sg_id) db.sync_groups)

unfoldable pub get_mirrors_by_group : Db → ℕ → List Mirror
get_mirrors_by_group db sync_group_id =
    select (λ m. refers m.sync_group_id sync_group_id && not m.is_deleted) db.mirrors
