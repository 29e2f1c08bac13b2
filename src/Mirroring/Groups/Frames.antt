-- ===== src/Mirroring/Groups/Frames.antt =====
-- Operations that leave mirrors and source repositories alone (backend/app/services/sync_group.py,
-- backend/app/services/pipeline/_configs.py, backend/app/api/mirroring.py).
use big_bug.Prelude.{
  ℕ, ◌≡◌, refl, ap, subst, inl, inr, not, ◌&&◌, text_keys, number_keys, ◌==◌, Bool-cases, any, find,
  ok_of_bind, guard_passed, ok_injective, ok,
}
use big_bug.Mirroring.{
  SyncGroup, Db, or_404, conflict, not_found, bad_request, integrity_error, live_group, refers,
}
use big_bug.Mirroring.Pipelines.{get_pipeline_config, delete_pipeline, restore_pipeline}
use big_bug.Mirroring.Groups.{
  create_sync_group, update_sync_group, restore_sync_group, apply_pipeline, SyncGroupCreate,
  SyncGroupUpdate, set_group, pipeline_exists,
}
use big_bug.Mirroring.Repositories.{delete_source_group, restore_source_group}
use big_bug.Mirroring.Sound.{Same, Same-refl}

set_group-Same : (db : Db) (id : ℕ) (f : SyncGroup → SyncGroup) → Same db (set_group id f db)
unfolding set_group
set_group-Same db id f = record { mirrors = refl; sequence = refl; repositories = refl }

pub create_sync_group-Same :
    (db : Db) (payload : SyncGroupCreate) {group : SyncGroup} {db' : Db}
    → create_sync_group db payload ≡ ok (group, db')
    → Same db db'
unfolding create_sync_group
create_sync_group-Same db payload h =
    let (_, h1) =
      guard_passed (not (any (λ g. g.name == payload.name && not g.is_deleted) db.sync_groups))
        conflict h in
    let (_, h2) = guard_passed (pipeline_exists db payload.pipeline_id) not_found h1 in
    let (_, h3) =
      guard_passed (not (any (λ g. g.name == payload.name) db.sync_groups)) integrity_error h2 in
    subst (Same db) (ap (λ r. r.1) (ok_injective h3))
      (record { mirrors = refl; sequence = refl; repositories = refl })

pub update_sync_group-Same :
    (db : Db) (group_id : ℕ) (payload : SyncGroupUpdate) {db' : Db}
    → update_sync_group db group_id payload ≡ ok db'
    → Same db db'
unfolding update_sync_group
update_sync_group-Same db group_id payload h =
    let (_, _, h1) = ok_of_bind (or_404 (find (live_group group_id) db.sync_groups)) _ h in
    let (_, h2) = guard_passed (pipeline_exists db payload.pipeline_id) not_found h1 in
    subst (Same db) (ok_injective h2) (set_group-Same db group_id _)

pub restore_sync_group-Same :
    (db : Db) (group_id : ℕ) {db' : Db} → restore_sync_group db group_id ≡ ok db' → Same db db'
unfolding restore_sync_group
restore_sync_group-Same db group_id h =
    let (g, _, h1) = ok_of_bind (or_404 (find (λ g. g.id == group_id) db.sync_groups)) _ h in
    subst (Same db) (ok_injective h1) (elim (Bool-cases g.is_deleted) [
      | inl e ↦ rw e (set_group-Same db group_id _)
      | inr e ↦ rw e (Same-refl db)
    ])

pub apply_pipeline-Same :
    (db : Db) (group_id pipeline_id : ℕ) {db' : Db}
    → apply_pipeline db group_id pipeline_id ≡ ok db'
    → Same db db'
unfolding apply_pipeline
apply_pipeline-Same db group_id pipeline_id h =
    let (_, _, h1) = ok_of_bind (or_404 (find (live_group group_id) db.sync_groups)) _ h in
    let (_, _, h2) = ok_of_bind (or_404 (get_pipeline_config db pipeline_id)) _ h1 in
    subst (Same db) (ok_injective h2) (set_group-Same db group_id _)

pub delete_pipeline-Same :
    (db : Db) (pipeline_id now : ℕ) {db' : Db}
    → delete_pipeline db pipeline_id now ≡ ok db'
    → Same db db'
unfolding delete_pipeline
delete_pipeline-Same db pipeline_id now h =
    let (p, _, h1) = ok_of_bind (or_404 (get_pipeline_config db pipeline_id)) _ h in
    let (_, h2) = guard_passed (not p.is_default) conflict h1 in
    let (_, h3) =
      guard_passed
        (not (any (λ g. refers g.pipeline_id pipeline_id && not g.is_deleted) db.sync_groups))
        conflict h2 in
    subst (Same db) (ok_injective h3)
      (record { mirrors = refl; sequence = refl; repositories = refl })

pub restore_pipeline-Same :
    (db : Db) (pipeline_id : ℕ) {db' : Db} → restore_pipeline db pipeline_id ≡ ok db' → Same db db'
unfolding restore_pipeline
restore_pipeline-Same db pipeline_id h =
    let (p, _, h1) = ok_of_bind (or_404 (find (λ p. p.id == pipeline_id) db.pipelines)) _ h in
    subst (Same db) (ok_injective h1) (elim (Bool-cases p.is_deleted) [
      | inl e ↦ rw e (record { mirrors = refl; sequence = refl; repositories = refl })
      | inr e ↦ rw e (Same-refl db)
    ])

pub delete_source_group-Same :
    (db : Db) (group_id now : ℕ) {db' : Db}
    → delete_source_group db group_id now ≡ ok db'
    → Same db db'
unfolding delete_source_group
delete_source_group-Same db group_id now h =
    let (_, _, h1) =
      ok_of_bind (or_404 (find (λ g. g.id == group_id && not g.is_deleted) db.source_groups)) _ h in
    subst (Same db) (ok_injective h1)
      (record { mirrors = refl; sequence = refl; repositories = refl })

pub restore_source_group-Same :
    (db : Db) (group_id : ℕ) {db' : Db} → restore_source_group db group_id ≡ ok db' → Same db db'
unfolding restore_source_group
restore_source_group-Same db group_id h =
    let (g, _, h1) = ok_of_bind (or_404 (find (λ g. g.id == group_id) db.source_groups)) _ h in
    let (_, h2) = guard_passed g.is_deleted bad_request h1 in
    subst (Same db) (ok_injective h2)
      (record { mirrors = refl; sequence = refl; repositories = refl })
