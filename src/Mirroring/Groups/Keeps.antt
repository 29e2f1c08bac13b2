-- ===== src/Mirroring/Groups/Keeps.antt =====
-- What the operations on sync groups leave of the mirrors (backend/app/services/sync_group.py).
use big_bug.Prelude.{
  ℕ, ◌≡◌, refl, ap, subst, inl, inr, Bool, true, false, not, ◌&&◌, Option, none, some, List, [],
  ◌∷◌, text_keys, number_keys, ◌==◌, Bool-cases, any, select, find, Result, ok_of_bind,
  guard_passed, ok_injective, ok, err,
}
use big_bug.Mirroring.{
  Mirror, Db, SyncGroup, scalar_one_or_none, Pipeline, MirroringError, after_lem, or_404,
  live_group, refers, value_error, conflict, integrity_error,
}
use big_bug.Mirroring.Pipelines.{
  PipelineCreate, create_pipeline, without_default, unset_if, live_default, _unset_default,
  get_default_pipeline,
}
use big_bug.Mirroring.Groups.{
  all_found, get_default_group, group_or_create, default_pipeline_create, pipeline_or_create,
  add_default_group, created_or_err, default_live, delete_found, assign_each, delete_sync_group,
  assign_mirrors_to_group, in_group, bulk_assign_mirrors, assign_one, move_and_delete,
}
use big_bug.Mirroring.Sound.{
  IsSound, Keeps, change-IsSound, Same, Same-IsSound, Same-refl, Same-trans,
}

without_default-Same : (db : Db) (o : Option Pipeline) → Same db (without_default db o)
unfolding without_default
without_default-Same db none = Same-refl db
without_default-Same db (some p) = record { mirrors = refl; sequence = refl; repositories = refl }

unset_if-Same : (db : Db) (b : Bool) {left : Db} → unset_if b db ≡ ok left → Same db left
unfolding unset_if _unset_default
unset_if-Same db false h = subst (Same db) (ok_injective h) (Same-refl db)
unset_if-Same db true h =
    let (current, _, h1) = ok_of_bind (scalar_one_or_none (select live_default db.pipelines)) _ h in
    subst (Same db) (ok_injective h1) (without_default-Same db current)

create_pipeline-Same :
    (db : Db) (payload : PipelineCreate) {pipeline : Pipeline} {db' : Db}
    → create_pipeline db payload ≡ ok (pipeline, db')
    → Same db db'
unfolding create_pipeline
create_pipeline-Same db payload {pipeline} {db'} h =
    let (free, h1) =
      guard_passed (not (any (λ p. p.name == payload.name && not p.is_deleted) db.pipelines))
        conflict h in
    let (left, e, h2) = ok_of_bind (unset_if payload.is_default db) _ h1 in
    let (unused, h3) =
      guard_passed (not (any (λ p. p.name == payload.name) db.pipelines)) integrity_error h2 in
    let s = unset_if-Same db payload.is_default e in
    subst (Same db) (ap (λ r. r.1) (ok_injective h3))
      (record { mirrors = s.mirrors; sequence = s.sequence; repositories = s.repositories })

created_or_err-Same :
    (db : Db) (r : Result MirroringError (Pipeline × Db))
    → ((p : Pipeline) (left : Db) → r ≡ ok (p, left) → Same db left)
    → Same db (created_or_err db r).1
unfolding created_or_err
created_or_err-Same db (err why) h = Same-refl db
created_or_err-Same db (ok (p, left)) h = h p left refl

pipeline_or_create-Same : (db : Db) (o : Option Pipeline) → Same db (pipeline_or_create db o).1
unfolding pipeline_or_create
pipeline_or_create-Same db none =
    created_or_err-Same db (create_pipeline db default_pipeline_create)
      (λ p left e. create_pipeline-Same db _ e)
pipeline_or_create-Same db (some p) = Same-refl db

add_default_group-Same : (db : Db) (pipeline_id : ℕ) → Same db (add_default_group db pipeline_id).1
unfolding add_default_group
add_default_group-Same db pipeline_id =
    elim (Bool-cases (any (λ g. g.name == "default") db.sync_groups)) [
      | inl taken ↦ rw taken (Same-refl db)
      | inr free ↦ rw free (record { mirrors = refl; sequence = refl; repositories = refl })
    ]

group_or_create-Same : (db : Db) (o : Option SyncGroup) → Same db (group_or_create db o).1
unfolding group_or_create
group_or_create-Same db (some g) = Same-refl db
group_or_create-Same db none =
    after_lem (Same db) (get_default_pipeline db, db) _ (Same-refl db)
      (λ found mid s.
        after_lem (Same db) (pipeline_or_create mid found) _
          (Same-trans db mid _ s (pipeline_or_create-Same mid found))
          (λ pipeline last t. Same-trans db last _ t (add_default_group-Same last pipeline.id)))

-- Whatever it returns or raises, the lookup of the default group leaves mirrors and repositories.
pub get_default_group-Same : (db : Db) → Same db (get_default_group db).1
unfolding get_default_group
get_default_group-Same db =
    after_lem (Same db) (scalar_one_or_none (select default_live db.sync_groups), db) _
      (Same-refl db) (λ found mid s. Same-trans db mid _ s (group_or_create-Same mid found))

in_group-Keeps : (group_id : ℕ) → Keeps (in_group group_id)
in_group-Keeps group_id = record {
  id = λ m. refl;
  source = λ m. refl;
  deleted = λ m. refl;
  dated = λ m. refl;
}

delete_found_lem :
    (db : Db) (group_id now : ℕ) (group : SyncGroup)
    → IsSound db
    → IsSound (delete_found db group_id now group).1
unfolding delete_found move_and_delete
delete_found_lem db group_id now group t = elim (Bool-cases group.is_default) [
  | inl e ↦ rw e t
  | inr e ↦ rw e (
      after_lem IsSound (get_default_group db) _ (Same-IsSound db _ (get_default_group-Same db) t)
        (λ d left u.
          Same-IsSound _ _ (record { mirrors = refl; sequence = refl; repositories = refl })
            (change-IsSound left (λ m. refers m.sync_group_id group_id && not m.is_deleted)
              (in_group d.id) (in_group-Keeps d.id) u)))
]

-- Whether it succeeds or fails, the deletion of a sync group keeps the rules.
pub delete_sync_group-IsSound :
    (db : Db) (group_id now : ℕ) → IsSound db → IsSound (delete_sync_group db group_id now).1
unfolding delete_sync_group
delete_sync_group-IsSound db group_id now s =
    after_lem IsSound (or_404 (find (live_group group_id) db.sync_groups), db) _ s
      (λ group mid t. delete_found_lem mid group_id now group t)

pub assign_mirrors_to_group-IsSound :
    (db : Db) (group_id : ℕ) (mirror_ids : List ℕ) {moved : List Mirror} {db' : Db}
    → assign_mirrors_to_group db group_id mirror_ids ≡ ok (moved, db')
    → IsSound db
    → IsSound db'
unfolding assign_mirrors_to_group
assign_mirrors_to_group-IsSound db group_id mirror_ids h s =
    let (group, _, h1) = ok_of_bind (or_404 (find (live_group group_id) db.sync_groups)) _ h in
    subst IsSound (ap (λ r. r.1) (ok_injective h1))
      (change-IsSound db _ (in_group group_id) (in_group-Keeps group_id) s)

assign_each-IsSound :
    (db : Db) (group_id : ℕ) (mirror_ids : List ℕ)
    → IsSound db
    → IsSound (record db { mirrors = assign_each group_id mirror_ids db.mirrors })
unfolding assign_each assign_one
assign_each-IsSound db group_id [] s = s
assign_each-IsSound db group_id (id ∷ ids) s =
    assign_each-IsSound (record db { mirrors = assign_one group_id id db.mirrors }) group_id ids
      (change-IsSound db _ (in_group group_id) (in_group-Keeps group_id) s)

pub bulk_assign_mirrors-IsSound :
    (db : Db) (group_id : ℕ) (mirror_ids : List ℕ) {db' : Db}
    → bulk_assign_mirrors db group_id mirror_ids ≡ ok db'
    → IsSound db
    → IsSound db'
unfolding bulk_assign_mirrors
bulk_assign_mirrors-IsSound db group_id mirror_ids h s =
    let (group, _, h1) = ok_of_bind (or_404 (find (live_group group_id) db.sync_groups)) _ h in
    let (there, h2) = guard_passed (all_found db mirror_ids) value_error h1 in
    subst IsSound (ok_injective h2) (assign_each-IsSound db group_id mirror_ids s)
