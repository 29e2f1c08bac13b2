-- ===== src/Mirroring/Pipelines.antt =====
-- Pipeline configurations (backend/app/services/pipeline/_configs.py). The default flag and soft
-- deletion are modelled; a configuration's components, variables and its provider are left out.
use big_bug.Prelude.{
  ℕ, ◌+◌, String, Bool, true, false, not, ◌&&◌, Option, none, some, [], ◌∷◌, ◌++◌, if◌then◌else◌,
  text_keys, number_keys, ◌==◌, any, select, find, update_where, Result, guard, ◌>>=◌, ◌>>◌, ok,
}
use big_bug.Mirroring.{
  Pipeline, Db, MirroringError, conflict, refers, scalar_one_or_none, or_404, integrity_error,
}

unfoldable pub get_pipeline_config : Db → ℕ → Option Pipeline
get_pipeline_config db pipeline_id =
    find (λ p. p.id == pipeline_id && not p.is_deleted) db.pipelines

abbrev pub live_default : Pipeline → Bool
live_default p = p.is_default && not p.is_deleted

unfoldable pub get_default_pipeline : Db → Result MirroringError (Option Pipeline)
get_default_pipeline db = scalar_one_or_none (select live_default db.pipelines)

unfoldable pub without_default : Db → Option Pipeline → Db
without_default db none = db
without_default db (some current) = record db {
  pipelines =
      update_where (λ p. p.id == current.id) (λ p. record p { is_default = false }) db.pipelines;
}

unfoldable pub _unset_default : Db → Result MirroringError Db
unfolding without_default
_unset_default db = do
  current ← scalar_one_or_none (select live_default db.pipelines)
  ok (without_default db current)

pub record PipelineCreate : Type 0 where
  pub name : String
  pub description : Option String
  pub is_default : Bool
  pub is_enabled : Bool

unfoldable pub unset_if : Bool → Db → Result MirroringError Db
unfolding _unset_default
unset_if false db = ok db
unset_if true db = _unset_default db

-- A configuration without provider, project and components, such as the default one. The column
-- `name` is unique over all rows, while the check looks at rows that are not deleted.
unfoldable pub create_pipeline : Db → PipelineCreate → Result MirroringError (Pipeline × Db)
unfolding unset_if
create_pipeline db payload = do
  guard (not (any (λ p. p.name == payload.name && not p.is_deleted) db.pipelines)) conflict
  left ← unset_if payload.is_default db
  guard (not (any (λ p. p.name == payload.name) db.pipelines)) integrity_error
  let pipeline : Pipeline = record {
    id = left.next_pipeline_id;
    name = payload.name;
    description = payload.description;
    provider_id = none;
    is_default = payload.is_default;
    is_enabled = payload.is_enabled;
    is_deleted = false;
    deleted_at = none;
  }
  ok (
    pipeline,
    record left {
      pipelines = left.pipelines ++ pipeline ∷ [];
      next_pipeline_id = left.next_pipeline_id + 1;
    },
  )

unfoldable pub delete_pipeline : Db → ℕ → ℕ → Result MirroringError Db
unfolding get_pipeline_config
delete_pipeline db pipeline_id now = do
  pipeline ← or_404 (get_pipeline_config db pipeline_id)
  guard (not pipeline.is_default) conflict
  guard (not (any (λ g. refers g.pipeline_id pipeline_id && not g.is_deleted) db.sync_groups))
      conflict
  ok (record db {
    pipelines =
        update_where (λ p. p.id == pipeline_id)
          (λ p. record p { is_deleted = true; deleted_at = some now }) db.pipelines;
  })

unfoldable pub restore_pipeline : Db → ℕ → Result MirroringError Db
restore_pipeline db pipeline_id = do
  pipeline ← or_404 (find (λ p. p.id == pipeline_id) db.pipelines)
  ok (
      if pipeline.is_deleted
      then record db {
        pipelines =
            update_where (λ p. p.id == pipeline_id)
              (λ p. record p { is_deleted = false; deleted_at = none }) db.pipelines;
      }
      else db)
