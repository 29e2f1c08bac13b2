-- ===== src/Mirroring/Cleanup.antt =====
-- The physical deletion of rows whose soft deletion is past the retention period (`CleanupService`
-- in backend/app/services/cleanup.py), with the cascades `all, delete-orphan` of the models' relations
-- among the modelled tables. `now` and `retention` count in the unit of the time stamps.
pub mod Keeps
pub mod Safe
pub mod Live
pub mod Gone
use big_bug.Prelude.{
  ℕ, ◌+◌, Bool, false, not, ◌&&◌, Option, none, some, List, [], map, ltb, if◌then◌else◌, text_keys,
  number_keys, ◌==◌, length, any, select, delete_where,
}
use big_bug.Mirroring.{
  Mirror, MirrorLog, PipelineRun, SyncGroup, SourceRepository, SourceGroup, Pipeline, Db, refers,
}

-- `is_deleted AND deleted_at IS NOT NULL AND deleted_at < now - retention`
abbrev pub before_cutoff : ℕ → ℕ → Option ℕ → Bool
before_cutoff now retention none = false
before_cutoff now retention (some deleted_at) = ltb (deleted_at + retention) now

abbrev pub expired : ℕ → ℕ → Bool → Option ℕ → Bool
expired now retention is_deleted deleted_at = is_deleted && before_cutoff now retention deleted_at

-- `db.delete` of every mirror with `p`; a mirror takes its logs along.
unfoldable pub delete_mirrors : (Mirror → Bool) → Db → Db
delete_mirrors p db = record db {
  mirrors = delete_where p db.mirrors;
  mirror_logs = delete_where (λ l. any (λ m. m.id == l.mirror_id && p m) db.mirrors) db.mirror_logs;
}

-- A sync group takes its mirrors along.
unfoldable pub delete_groups : (SyncGroup → Bool) → Db → Db
unfolding delete_mirrors
delete_groups p db =
    record (delete_mirrors (λ m. any (λ g. refers m.sync_group_id g.id && p g) db.sync_groups) db) {
      sync_groups = delete_where p db.sync_groups;
    }

-- A source repository takes its mirrors along.
unfoldable pub delete_repositories : (SourceRepository → Bool) → Db → Db
unfolding delete_mirrors
delete_repositories p db =
    record (delete_mirrors
      (λ m. any (λ r. r.id == m.source_repository_id && p r) db.source_repositories) db) {
        source_repositories = delete_where p db.source_repositories;
      }

-- A source group takes its repositories along.
unfoldable pub delete_source_groups : (SourceGroup → Bool) → Db → Db
unfolding delete_repositories
delete_source_groups p db =
    record (delete_repositories
      (λ r. any (λ g. refers r.source_group_id g.id && p g) db.source_groups) db) {
        source_groups = delete_where p db.source_groups;
      }

-- A run that goes is no longer referred to: the foreign key of a log is set to `NULL`.
abbrev pub forget_runs : (PipelineRun → Bool) → List PipelineRun → MirrorLog → MirrorLog
forget_runs p runs l = record l {
  pipeline_run_id =
      if any (λ r. refers l.pipeline_run_id r.id && p r) runs then none else l.pipeline_run_id;
}

-- `db.delete` of every run with `p`.
unfoldable pub delete_runs : (PipelineRun → Bool) → Db → Db
delete_runs p db = record db {
  pipeline_runs = delete_where p db.pipeline_runs;
  mirror_logs = map (forget_runs p db.pipeline_runs) db.mirror_logs;
}

-- A pipeline takes its sync groups and its runs along.
unfoldable pub delete_pipelines : (Pipeline → Bool) → Db → Db
unfolding delete_groups delete_runs
delete_pipelines p db =
    record (delete_runs (λ r. any (λ q. refers r.pipeline_id q.id && p q) db.pipelines)
      (delete_groups (λ g. any (λ q. refers g.pipeline_id q.id && p q) db.pipelines) db)) {
        pipelines = delete_where p db.pipelines;
      }

pub record CleanupResult : Type 0 where
  pub mirror_logs_deleted : ℕ
  pub mirrors_deleted : ℕ
  pub sync_groups_deleted : ℕ
  pub source_repositories_deleted : ℕ
  pub source_groups_deleted : ℕ
  pub pipelines_deleted : ℕ

abbrev pub total_deleted : CleanupResult → ℕ
total_deleted r =
    r.mirror_logs_deleted + r.mirrors_deleted + r.sync_groups_deleted
    + r.source_repositories_deleted + r.source_groups_deleted + r.pipelines_deleted

module _ (now retention : ℕ) where
  abbrev pub expired_mirror : Mirror → Bool
  expired_mirror m = expired now retention m.is_deleted m.deleted_at

  -- The selections of the six steps, over the tables that the step finds.
  unfoldable pub old_log : Db → MirrorLog → Bool
  old_log db l = any (λ m. m.id == l.mirror_id && expired_mirror m) db.mirrors

  unfoldable pub old_group : Db → SyncGroup → Bool
  old_group db g =
      expired now retention g.is_deleted g.deleted_at
      && not (any (λ m. refers m.sync_group_id g.id && not m.is_deleted) db.mirrors)

  unfoldable pub old_repository : Db → SourceRepository → Bool
  old_repository db r =
      expired now retention r.is_deleted r.deleted_at
      && not (any (λ m. m.source_repository_id == r.id && not m.is_deleted) db.mirrors)

  unfoldable pub old_source_group : Db → SourceGroup → Bool
  old_source_group db g =
      expired now retention g.is_deleted g.deleted_at
      && not (any (λ r. refers r.source_group_id g.id && not r.is_deleted) db.source_repositories)

  unfoldable pub old_pipeline : Db → Pipeline → Bool
  old_pipeline db p =
      expired now retention p.is_deleted p.deleted_at
      && not (any (λ g. refers g.pipeline_id p.id && not g.is_deleted) db.sync_groups)

  unfoldable pub after_logs : Db → Db
  unfolding old_log
  after_logs db = record db { mirror_logs = delete_where (old_log db) db.mirror_logs }

  unfoldable pub after_mirrors : Db → Db
  unfolding delete_mirrors
  after_mirrors = delete_mirrors expired_mirror

  unfoldable pub after_groups : Db → Db
  unfolding delete_groups old_group
  after_groups db = delete_groups (old_group db) db

  unfoldable pub after_repositories : Db → Db
  unfolding delete_repositories old_repository
  after_repositories db = delete_repositories (old_repository db) db

  unfoldable pub after_source_groups : Db → Db
  unfolding delete_source_groups old_source_group
  after_source_groups db = delete_source_groups (old_source_group db) db

  unfoldable pub after_pipelines : Db → Db
  unfolding delete_pipelines old_pipeline
  after_pipelines db = delete_pipelines (old_pipeline db) db

  -- The six steps, each flushed before the next one reads, with their counts. Rows that a cascade
  -- takes along are not counted.
  unfoldable pub run_cleanup : Db → CleanupResult × Db
  unfolding after_logs after_mirrors after_groups after_repositories after_source_groups
      after_pipelines
  run_cleanup db =
      let db1 = after_logs db in
      let db2 = after_mirrors db1 in
      let db3 = after_groups db2 in
      let db4 = after_repositories db3 in
      let db5 = after_source_groups db4 in
      (
        record {
          mirror_logs_deleted = length (select (old_log db) db.mirror_logs);
          mirrors_deleted = length (select expired_mirror db1.mirrors);
          sync_groups_deleted = length (select (old_group db2) db2.sync_groups);
          source_repositories_deleted =
              length (select (old_repository db3) db3.source_repositories);
          source_groups_deleted = length (select (old_source_group db4) db4.source_groups);
          pipelines_deleted = length (select (old_pipeline db5) db5.pipelines);
        },
        after_pipelines db5,
      )
