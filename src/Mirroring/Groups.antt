-- ===== src/Mirroring/Groups.antt =====
-- Sync groups (backend/app/services/sync_group.py). Audit events and log lines are left out.
pub mod Keeps
pub mod Frames
use big_bug.Prelude.{
  ℕ, ◌+◌, String, Bool, true, false, not, ◌&&◌, Option, none, some, List, [], ◌∷◌, ◌++◌, map,
  if◌then◌else◌, text_keys, number_keys, ◌==◌, is_some, any, all, select, find, contains,
  update_where, Result, guard, ◌>>=◌, ◌>>◌, ok, err,
}
use big_bug.Mirroring.Pipelines.{
  PipelineCreate, create_pipeline, get_default_pipeline, get_pipeline_config,
}
use big_bug.Mirroring.{
  Mirror, SyncGroup, Db, MirroringError, or_404, live_mirror, Call, Pipeline, conflict, refers,
  after, integrity_error, not_found, live_group, bad_request, scalar_one_or_none, value_error,
}

abbrev pub default_live : SyncGroup → Bool
default_live g = g.is_default && not g.is_deleted

unfoldable pub add_default_group : Db → ℕ → Call SyncGroup
add_default_group db pipeline_id =
    let group : SyncGroup = record {
      id = db.next_group_id;
      name = "default";
      description = some "Default sync group (auto-created)";
      pipeline_id = some pipeline_id;
      is_default = true;
      sync_cron = none;
      sync_enabled = true;
      sync_concurrency = 5;
      freshness_cron = none;
      freshness_enabled = true;
      freshness_concurrency = 5;
      is_deleted = false;
      deleted_at = none;
    } in
    if any (λ g. g.name == "default") db.sync_groups then (err integrity_error, db) else (
      ok group,
      record db {
        sync_groups = db.sync_groups ++ group ∷ [];
        next_group_id = db.next_group_id + 1;
      },
    )

unfoldable pub default_pipeline_create : PipelineCreate
default_pipeline_create = record {
  name = "default";
  description = some "Auto-created default pipeline";
  is_default = true;
  is_enabled = true;
}

-- The new pipeline is committed before the group is added.
unfoldable pub created_or_err : Db → Result MirroringError (Pipeline × Db) → Call Pipeline
created_or_err db (err why) = (err why, db)
created_or_err db (ok (pipeline, left)) = (ok pipeline, left)

unfoldable pub pipeline_or_create : Db → Option Pipeline → Call Pipeline
unfolding created_or_err
pipeline_or_create db none = created_or_err db (create_pipeline db default_pipeline_create)
pipeline_or_create db (some pipeline) = (ok pipeline, db)

unfoldable pub group_or_create : Db → Option SyncGroup → Call SyncGroup
unfolding pipeline_or_create add_default_group
group_or_create db (some group) = (ok group, db)
group_or_create db none =
    after (get_default_pipeline db, db)
      (λ found db.
        after (pipeline_or_create db found) (λ pipeline db. add_default_group db pipeline.id))

unfoldable pub get_default_group : Db → Call SyncGroup
unfolding group_or_create
get_default_group db =
    after (scalar_one_or_none (select default_live db.sync_groups), db)
      (λ found db. group_or_create db found)

pub record SyncGroupCreate : Type 0 where
  pub name : String
  pub description : Option String
  pub pipeline_id : Option ℕ
  pub sync_cron : Option String
  pub sync_enabled : Bool
  pub sync_concurrency : ℕ
  pub freshness_cron : Option String
  pub freshness_enabled : Bool
  pub freshness_concurrency : ℕ

-- `if pipeline_id is not None: … raise 404`
unfoldable pub pipeline_exists : Db → Option ℕ → Bool
unfolding get_pipeline_config
pipeline_exists db none = true
pipeline_exists db (some pipeline_id) = is_some (get_pipeline_config db pipeline_id)

-- The column `name` is unique over all rows, while the check looks at rows that are not deleted.
unfoldable pub create_sync_group : Db → SyncGroupCreate → Result MirroringError (SyncGroup × Db)
unfolding pipeline_exists
create_sync_group db payload = do
  guard (not (any (λ g. g.name == payload.name && not g.is_deleted) db.sync_groups)) conflict
  guard (pipeline_exists db payload.pipeline_id) not_found
  guard (not (any (λ g. g.name == payload.name) db.sync_groups)) integrity_error
  let group : SyncGroup = record {
    id = db.next_group_id;
    name = payload.name;
    description = payload.description;
    pipeline_id = payload.pipeline_id;
    is_default = false;
    sync_cron = payload.sync_cron;
    sync_enabled = payload.sync_enabled;
    sync_concurrency = payload.sync_concurrency;
    freshness_cron = payload.freshness_cron;
    freshness_enabled = payload.freshness_enabled;
    freshness_concurrency = payload.freshness_concurrency;
    is_deleted = false;
    deleted_at = none;
  }
  ok (
    group,
    record db { sync_groups = db.sync_groups ++ group ∷ []; next_group_id = db.next_group_id + 1 },
  )

unfoldable pub get_sync_group : Db → ℕ → Result MirroringError SyncGroup
get_sync_group db group_id = or_404 (find (live_group group_id) db.sync_groups)

unfoldable pub set_group : ℕ → (SyncGroup → SyncGroup) → Db → Db
set_group group_id change db = record db {
  sync_groups = update_where (λ g. g.id == group_id) change db.sync_groups;
}

pub record SyncGroupUpdate : Type 0 where
  pub description : Option String
  pub pipeline_id : Option ℕ
  pub sync_cron : Option String
  pub sync_enabled : Option Bool
  pub sync_concurrency : Option ℕ
  pub freshness_cron : Option String
  pub freshness_enabled : Option Bool
  pub freshness_concurrency : Option ℕ

-- `if payload.x is not None: group.x = payload.x`, for a column that is nullable and for one that is not.
abbrev pub given_or {ℓ} : {A : Type ℓ} → Option A → A → A
given_or none old = old
given_or (some new) old = new

abbrev pub some_or {ℓ} : {A : Type ℓ} → Option A → Option A → Option A
some_or none old = old
some_or (some new) old = some new

unfoldable pub changed_group : SyncGroupUpdate → SyncGroup → SyncGroup
changed_group payload g = record g {
  description = some_or payload.description g.description;
  pipeline_id = some_or payload.pipeline_id g.pipeline_id;
  sync_cron = some_or payload.sync_cron g.sync_cron;
  sync_enabled = given_or payload.sync_enabled g.sync_enabled;
  sync_concurrency = given_or payload.sync_concurrency g.sync_concurrency;
  freshness_cron = some_or payload.freshness_cron g.freshness_cron;
  freshness_enabled = given_or payload.freshness_enabled g.freshness_enabled;
  freshness_concurrency = given_or payload.freshness_concurrency g.freshness_concurrency;
}

unfoldable pub update_sync_group : Db → ℕ → SyncGroupUpdate → Result MirroringError Db
unfolding pipeline_exists set_group
update_sync_group db group_id payload = do
  group ← or_404 (find (live_group group_id) db.sync_groups)
  guard (pipeline_exists db payload.pipeline_id) not_found
  ok (set_group group_id (changed_group payload) db)

-- `mirror.sync_group_id = group_id`
abbrev pub in_group : ℕ → Mirror → Mirror
in_group group_id m = record m { sync_group_id = some group_id }

unfoldable pub move_and_delete : ℕ → ℕ → ℕ → Db → Db
move_and_delete group_id default_id now db = record db {
  mirrors =
      update_where (λ m. refers m.sync_group_id group_id && not m.is_deleted) (in_group default_id)
        db.mirrors;
  sync_groups =
      update_where (λ g. g.id == group_id)
        (λ g. record g { is_deleted = true; deleted_at = some now }) db.sync_groups;
}

unfoldable pub delete_found : Db → ℕ → ℕ → SyncGroup → Call (Unit {0})
unfolding get_default_group move_and_delete
delete_found db group_id now group =
    if group.is_default
    then (err bad_request, db)
    else after (get_default_group db)
        (λ default_group left. (ok tt, move_and_delete group_id default_group.id now left))

unfoldable pub delete_sync_group : Db → ℕ → ℕ → Call (Unit {0})
unfolding delete_found
delete_sync_group db group_id now =
    after (or_404 (find (live_group group_id) db.sync_groups), db)
      (λ group db. delete_found db group_id now group)

unfoldable pub restore_sync_group : Db → ℕ → Result MirroringError Db
unfolding set_group
restore_sync_group db group_id = do
  group ← or_404 (find (λ g. g.id == group_id) db.sync_groups)
  ok (
      if group.is_deleted
      then set_group group_id (λ g. record g { is_deleted = false; deleted_at = none }) db
      else db)

abbrev pub set_members : ℕ → List ℕ → Db → Db
set_members group_id mirror_ids db = record db {
  mirrors =
      update_where (λ m. contains mirror_ids m.id && not m.is_deleted) (in_group group_id)
        db.mirrors;
}

-- Without ids the call returns before it changes a row; the general case changes none then either.
unfoldable pub assign_mirrors_to_group : Db → ℕ → List ℕ → Result MirroringError (List Mirror × Db)
assign_mirrors_to_group db group_id mirror_ids = do
  group ← or_404 (find (live_group group_id) db.sync_groups)
  ok (
    map (in_group group_id) (select (λ m. contains mirror_ids m.id && not m.is_deleted) db.mirrors),
    set_members group_id mirror_ids db,
  )

-- `missing`: an id that no live mirror has.
unfoldable pub all_found : Db → List ℕ → Bool
all_found db mirror_ids = all (λ id. any (live_mirror id) db.mirrors) mirror_ids

-- One step of the loop; `mirrors_map` holds the live mirrors.
unfoldable pub assign_one : ℕ → ℕ → List Mirror → List Mirror
assign_one group_id mirror_id =
    update_where (λ m. live_mirror mirror_id m && not (refers m.sync_group_id group_id))
      (in_group group_id)

unfoldable pub assign_each : ℕ → List ℕ → List Mirror → List Mirror
assign_each group_id [] mirrors = mirrors
assign_each group_id (mirror_id ∷ mirror_ids) mirrors =
    assign_each group_id mirror_ids (assign_one group_id mirror_id mirrors)

unfoldable pub bulk_assign_mirrors : Db → ℕ → List ℕ → Result MirroringError Db
unfolding all_found assign_each
bulk_assign_mirrors db sync_group_id mirror_ids = do
  group ← or_404 (find (live_group sync_group_id) db.sync_groups)
  guard (all_found db mirror_ids) value_error
  ok (record db { mirrors = assign_each sync_group_id mirror_ids db.mirrors })

unfoldable pub apply_pipeline : Db → ℕ → ℕ → Result MirroringError Db
unfolding get_pipeline_config set_group
apply_pipeline db sync_group_id pipeline_id = do
  group ← or_404 (find (live_group sync_group_id) db.sync_groups)
  pipeline ← or_404 (get_pipeline_config db pipeline_id)
  ok (set_group sync_group_id (λ g. record g { pipeline_id = some pipeline_id }) db)
