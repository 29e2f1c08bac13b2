-- ===== src/Mirroring/Steps.antt =====
-- Sequences of operations on the mirroring tables (backend/app/services/mirror.py, sync_group.py,
-- cleanup.py and pipeline/_configs.py, backend/app/api/mirroring.py).
use big_bug.Prelude.{ℕ, String, ◌≡◌, Option, List, text_keys, number_keys, ok}
use big_bug.Identity.{ResourceProvider, Db as AccessDb}
use big_bug.Mirroring.{Mirror, SyncGroup, Db}
use big_bug.Mirroring.Pipelines.{delete_pipeline, restore_pipeline}
use big_bug.Mirroring.Groups.{
  SyncGroupCreate, SyncGroupUpdate, get_default_group, create_sync_group, update_sync_group,
  delete_sync_group, restore_sync_group, assign_mirrors_to_group, bulk_assign_mirrors,
  apply_pipeline,
}
use big_bug.Mirroring.Mirrors.{
  MirrorCreate, MirrorBulkCreate, MirrorUpdate, create_mirror, bulk_create_mirrors, update_mirror,
  soft_delete_mirror, restore_mirror,
}
use big_bug.Mirroring.Repositories.{
  delete_source_repository, restore_source_repository, delete_source_group, restore_source_group,
}
use big_bug.Mirroring.Sync.{trigger_sync}
use big_bug.Mirroring.Sync.Keeps.{trigger_sync-IsSound}
use big_bug.Mirroring.Cleanup.{run_cleanup}
use big_bug.Mirroring.Sound.{IsSound, Same-IsSound}
use big_bug.Mirroring.Groups.Keeps.{
  get_default_group-Same, delete_sync_group-IsSound, assign_mirrors_to_group-IsSound,
  bulk_assign_mirrors-IsSound,
}
use big_bug.Mirroring.Groups.Frames.{
  create_sync_group-Same, update_sync_group-Same, restore_sync_group-Same, apply_pipeline-Same,
  delete_pipeline-Same, restore_pipeline-Same, delete_source_group-Same, restore_source_group-Same,
}
use big_bug.Mirroring.Mirrors.Keeps.{
  create_mirror-IsSound, bulk_create_mirrors-IsSound, update_mirror-IsSound,
}
use big_bug.Mirroring.Mirrors.Restored.{soft_delete_mirror-IsSound, restore_mirror-IsSound}
use big_bug.Mirroring.Repositories.Keeps.{
  delete_source_repository-IsSound, restore_source_repository-IsSound,
}
use big_bug.Mirroring.Cleanup.Keeps.{run_cleanup-IsSound}

-- The calls that commit in the middle are steps whether they return or raise.
pub data Step (db : Db) : Db → Type 0 where
  mirror_created :
      (payload : MirrorCreate) {m : Mirror} {db' : Db}
      → create_mirror db payload ≡ ok (m, db')
      → Step db db'
  mirrors_created :
      (payload : MirrorBulkCreate) {created : List Mirror} {db' : Db}
      → bulk_create_mirrors db payload ≡ ok (created, db')
      → Step db db'
  mirror_updated :
      (mirror_id : ℕ) (payload : MirrorUpdate) {db' : Db}
      → update_mirror db mirror_id payload ≡ ok db'
      → Step db db'
  mirror_deleted : (mirror_id now : ℕ) → Step db (soft_delete_mirror db mirror_id now).1
  mirror_restored : (mirror_id : ℕ) {db' : Db} → restore_mirror db mirror_id ≡ ok db' → Step db db'
  mirror_synchronised :
      (providers : List ResourceProvider) (create : ResourceProvider → String → Option ℕ)
      (now mirror_id : ℕ) {db' : Db}
      → trigger_sync providers create now db mirror_id ≡ ok db'
      → Step db db'
  default_asked : Step db (get_default_group db).1
  group_created :
      (payload : SyncGroupCreate) {group : SyncGroup} {db' : Db}
      → create_sync_group db payload ≡ ok (group, db')
      → Step db db'
  group_updated :
      (group_id : ℕ) (payload : SyncGroupUpdate) {db' : Db}
      → update_sync_group db group_id payload ≡ ok db'
      → Step db db'
  group_deleted : (group_id now : ℕ) → Step db (delete_sync_group db group_id now).1
  group_restored : (group_id : ℕ) {db' : Db} → restore_sync_group db group_id ≡ ok db' → Step db db'
  mirrors_assigned :
      (group_id : ℕ) (mirror_ids : List ℕ) {moved : List Mirror} {db' : Db}
      → assign_mirrors_to_group db group_id mirror_ids ≡ ok (moved, db')
      → Step db db'
  mirrors_bulk_assigned :
      (group_id : ℕ) (mirror_ids : List ℕ) {db' : Db}
      → bulk_assign_mirrors db group_id mirror_ids ≡ ok db'
      → Step db db'
  pipeline_applied :
      (group_id pipeline_id : ℕ) {db' : Db}
      → apply_pipeline db group_id pipeline_id ≡ ok db'
      → Step db db'
  pipeline_deleted :
      (pipeline_id now : ℕ) {db' : Db} → delete_pipeline db pipeline_id now ≡ ok db' → Step db db'
  pipeline_restored :
      (pipeline_id : ℕ) {db' : Db} → restore_pipeline db pipeline_id ≡ ok db' → Step db db'
  repository_deleted :
      (access : AccessDb) (user_id repository_id now : ℕ) {db' : Db}
      → delete_source_repository access db user_id repository_id now ≡ ok db'
      → Step db db'
  repository_restored :
      (access : AccessDb) (user_id repository_id : ℕ) {db' : Db}
      → restore_source_repository access db user_id repository_id ≡ ok db'
      → Step db db'
  source_group_deleted :
      (group_id now : ℕ) {db' : Db} → delete_source_group db group_id now ≡ ok db' → Step db db'
  source_group_restored :
      (group_id : ℕ) {db' : Db} → restore_source_group db group_id ≡ ok db' → Step db db'
  cleaned : (now retention : ℕ) → Step db (run_cleanup now retention db).1

pub data Reach (db : Db) : Db → Type 0 where
  here : Reach db db
  next : {mid last : Db} → Reach db mid → Step mid last → Reach db last

Step-IsSound : (db : Db) {db' : Db} → Step db db' → IsSound db → IsSound db'
Step-IsSound db (mirror_created payload e) s = create_mirror-IsSound db payload e s
Step-IsSound db (mirrors_created payload e) s = bulk_create_mirrors-IsSound db payload e s
Step-IsSound db (mirror_updated mirror_id payload e) s =
    update_mirror-IsSound db mirror_id payload e s
Step-IsSound db (mirror_deleted mirror_id now) s = soft_delete_mirror-IsSound db mirror_id now s
Step-IsSound db (mirror_restored mirror_id e) s = restore_mirror-IsSound db mirror_id e s
Step-IsSound db (mirror_synchronised providers create now mirror_id e) s =
    trigger_sync-IsSound providers create now db mirror_id e s
Step-IsSound db default_asked s = Same-IsSound db _ (get_default_group-Same db) s
Step-IsSound db (group_created payload e) s =
    Same-IsSound db _ (create_sync_group-Same db payload e) s
Step-IsSound db (group_updated group_id payload e) s =
    Same-IsSound db _ (update_sync_group-Same db group_id payload e) s
Step-IsSound db (group_deleted group_id now) s = delete_sync_group-IsSound db group_id now s
Step-IsSound db (group_restored group_id e) s =
    Same-IsSound db _ (restore_sync_group-Same db group_id e) s
Step-IsSound db (mirrors_assigned group_id mirror_ids e) s =
    assign_mirrors_to_group-IsSound db group_id mirror_ids e s
Step-IsSound db (mirrors_bulk_assigned group_id mirror_ids e) s =
    bulk_assign_mirrors-IsSound db group_id mirror_ids e s
Step-IsSound db (pipeline_applied group_id pipeline_id e) s =
    Same-IsSound db _ (apply_pipeline-Same db group_id pipeline_id e) s
Step-IsSound db (pipeline_deleted pipeline_id now e) s =
    Same-IsSound db _ (delete_pipeline-Same db pipeline_id now e) s
Step-IsSound db (pipeline_restored pipeline_id e) s =
    Same-IsSound db _ (restore_pipeline-Same db pipeline_id e) s
Step-IsSound db (repository_deleted access user_id repository_id now e) s =
    delete_source_repository-IsSound access db user_id repository_id now e s
Step-IsSound db (repository_restored access user_id repository_id e) s =
    restore_source_repository-IsSound access db user_id repository_id e s
Step-IsSound db (source_group_deleted group_id now e) s =
    Same-IsSound db _ (delete_source_group-Same db group_id now e) s
Step-IsSound db (source_group_restored group_id e) s =
    Same-IsSound db _ (restore_source_group-Same db group_id e) s
Step-IsSound db (cleaned now retention) s = run_cleanup-IsSound now retention db s

-- From tables with unique mirror and repository ids, mirror ids below the sequence, existing
-- repositories behind all mirrors, live ones behind live mirrors and no deletion time on live rows,
-- every sequence of the modelled mirror, synchronisation, sync group, pipeline, repository and source
-- group operations and cleanup passes, whether a call that commits midway returns or raises, leads
-- to such tables again.
pub Reach-IsSound : (db : Db) {db' : Db} → Reach db db' → IsSound db → IsSound db'
Reach-IsSound db here s = s
Reach-IsSound db (next before step) s = Step-IsSound _ step (Reach-IsSound db before s)
