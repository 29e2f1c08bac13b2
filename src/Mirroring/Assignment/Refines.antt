-- ===== src/Mirroring/Assignment/Refines.antt =====
-- The operations on the tables do to the assignment what the commands mean for the map
-- (backend/app/services/sync_group.py, `soft_delete_mirror` in backend/app/services/mirror.py).
use big_bug.Prelude.{
  ℕ, ◌≡◌, refl, sym, ap, ◌∙◌, subst, inl, inr, Bool, not, ◌&&◌, ◌||◌, Option, none, some, List, [],
  ◌∷◌, arith, if◌then◌else◌, text_keys, number_keys, ◌==◌, Bool-cases, Option-cases, find, contains,
  update_where, Result, ok_of_bind, guard_passed, ok_injective, ok, err,
}
use big_bug.Mirroring.{
  Mirror, SyncGroup, Db, Call, MirroringError, refers, or_404, live_mirror, live_group, after,
  value_error, bad_request,
}
use big_bug.Mirroring.Groups.{
  get_default_group, assign_mirrors_to_group, bulk_assign_mirrors, delete_sync_group, assign_one,
  assign_each, in_group, delete_found, move_and_delete, all_found,
}
use big_bug.Mirroring.Groups.Keeps.{get_default_group-Same}
use big_bug.Mirroring.Mirrors.{soft_delete_mirror, mirror_deleted}
use big_bug.Mirroring.Mirrors.Deleted.{soft_delete_mirror-absent, soft_delete_mirror_exact}
use big_bug.Mirroring.Sound.{Same}
use big_bug.Mirroring.Assignment.{
  Command, assign, bulk_assign, delete_group, delete_mirror, run, abstract, assignment, placed,
  moved_to, moved_from, id_of, default_id, finished, finished_with,
}

place_assign :
    (group_id : ℕ) (ids : List ℕ) (xs : List Mirror) (id : ℕ)
    → placed (update_where (λ m. contains ids m.id && not m.is_deleted) (in_group group_id) xs) id
      ≡ (if contains ids id then moved_to group_id (placed xs id) else placed xs id)
place_assign group_id ids [] id = ground arith
place_assign group_id ids (m ∷ xs) id =
    ground (arith, place_assign group_id ids xs id, number_keys.agrees m.id id)

place_one :
    (group_id one : ℕ) (xs : List Mirror) (id : ℕ)
    → placed (assign_one group_id one xs) id
      ≡ (if one == id then moved_to group_id (placed xs id) else placed xs id)
unfolding assign_one
place_one group_id one [] id = ground arith
place_one group_id one (m ∷ xs) id = ground (arith, place_one group_id one xs id)

place_move :
    (group_id default : ℕ) (xs : List Mirror) (id : ℕ)
    → placed
        (update_where
          (λ m. refers m.sync_group_id group_id && not m.is_deleted)
          (in_group default)
          xs)
        id
      ≡ moved_from group_id (some default) (placed xs id)
place_move group_id default [] id = refl
place_move group_id default (m ∷ xs) id = ground (arith, place_move group_id default xs id)

place_delete :
    (mirror_id now : ℕ) (xs : List Mirror) (id : ℕ)
    → placed (update_where (λ m. m.id == mirror_id) (mirror_deleted now) xs) id
      ≡ (if mirror_id == id then none else placed xs id)
place_delete mirror_id now [] id = ground arith
place_delete mirror_id now (m ∷ xs) id = ground (arith, place_delete mirror_id now xs id)

place_each :
    (group_id : ℕ) (ids : List ℕ) (xs : List Mirror) (id : ℕ)
    → placed (assign_each group_id ids xs) id
      ≡ (if contains ids id then moved_to group_id (placed xs id) else placed xs id)
unfolding assign_each
place_each group_id [] xs id = refl
place_each group_id (one ∷ ids) xs id =
    place_each group_id ids (assign_one group_id one xs) id
    ∙ rw (place_one group_id one xs id) (twice (contains ids id) (one == id) (placed xs id))
  where
    twice :
        (b c : Bool) (o : Option (Option ℕ))
        → (if b
            then moved_to group_id (if c then moved_to group_id o else o)
            else if c
            then moved_to group_id o
            else o)
          ≡ (if c || b then moved_to group_id o else o)
    twice b c none = ground arith
    twice b c (some k) = ground arith

not_raised :
    {P : Type 0} {why : MirroringError} {db db' : Db}
    → ◌≡◌ {A = Call (Unit {0})} (err why, db) (ok tt, db')
    → P
not_raised {P = P} {why} h =
    let raised : ◌≡◌ {A = Result MirroringError (Unit {0})} (err why) (ok tt) = ap (λ c. c.0) h in
    cc

-- What a successful deletion of a group did to the mirrors.
moved_ok :
    (db : Db) (c : Call SyncGroup) (group_id now : ℕ) {db' : Db}
    → Same db c.1
    → ◌≡◌ {A = Call (Unit {0})}
        (after c (λ d left. (ok tt, move_and_delete group_id d.id now left)))
        (ok tt, db')
    → (d : ℕ) × (id_of c.0 ≡ some d)
      × (db'.mirrors
          ≡ update_where
              (λ m. refers m.sync_group_id group_id && not m.is_deleted)
              (in_group d)
              db.mirrors)
unfolding move_and_delete
moved_ok db (err why, left) group_id now same h = not_raised h
moved_ok db (ok d, left) group_id now same h =
    (d.id, refl, ap (λ c. c.1.mirrors) (sym h) ∙ rw same.mirrors refl)

found_moved :
    (db : Db) (group : SyncGroup) (group_id now : ℕ) {db' : Db}
    → delete_found db group_id now group ≡ (ok tt, db')
    → (d : ℕ) × (default_id db ≡ some d)
      × (db'.mirrors
          ≡ update_where
              (λ m. refers m.sync_group_id group_id && not m.is_deleted)
              (in_group d)
              db.mirrors)
unfolding delete_found default_id
found_moved db group group_id now {db'} h = elim (Bool-cases group.is_default) [
  | inl e ↦ not_raised (
      subst
        (λ b.
          (if b
            then (err bad_request, db)
            else after (get_default_group db)
                (λ d left. (ok tt, move_and_delete group_id d.id now left)))
          ≡ (ok tt, db'))
        e h)
  | inr e ↦ moved_ok db (get_default_group db) group_id now (get_default_group-Same db) (
      subst
        (λ b.
          (if b
            then (err bad_request, db)
            else after (get_default_group db)
                (λ d left. (ok tt, move_and_delete group_id d.id now left)))
          ≡ (ok tt, db'))
        e h)
]

group_moved :
    (db : Db) (group_id now : ℕ) {db' : Db}
    → delete_sync_group db group_id now ≡ (ok tt, db')
    → (d : ℕ) × (default_id db ≡ some d)
      × (db'.mirrors
          ≡ update_where
              (λ m. refers m.sync_group_id group_id && not m.is_deleted)
              (in_group d)
              db.mirrors)
unfolding delete_sync_group
group_moved db group_id now {db'} h = go (or_404 (find (live_group group_id) db.sync_groups)) h
  where
    go :
        (r : Result MirroringError SyncGroup)
        → ◌≡◌ {A = Call (Unit {0})}
            (after (r, db) (λ group left. delete_found left group_id now group))
            (ok tt, db')
        → (d : ℕ) × (default_id db ≡ some d)
          × (db'.mirrors
              ≡ update_where
                  (λ m. refers m.sync_group_id group_id && not m.is_deleted)
                  (in_group d)
                  db.mirrors)
    go (err why) e = not_raised e
    go (ok group) e = found_moved db group group_id now e

finished_ok :
    {A : Type 0} (db : Db) (r : Result MirroringError (A × Db)) {db' : Db}
    → finished db r ≡ (ok tt, db')
    → (a : A) × (r ≡ ok (a, db'))
finished_ok db (err why) h = not_raised h
finished_ok db (ok (a, left)) h = (a, ap (λ (c : Call (Unit {0})). ok (a, c.1)) h)

finished_with_ok :
    (db : Db) (r : Result MirroringError Db) {db' : Db}
    → finished_with db r ≡ (ok tt, db')
    → r ≡ ok db'
finished_with_ok db (err why) h = not_raised h
finished_with_ok db (ok left) h = ap (λ (c : Call (Unit {0})). ok c.1) h

mirror_deleted_ok :
    (db : Db) (mirror_id now : ℕ) {db' : Db}
    → soft_delete_mirror db mirror_id now ≡ (ok tt, db')
    → db'.mirrors ≡ update_where (λ m. m.id == mirror_id) (mirror_deleted now) db.mirrors
mirror_deleted_ok db mirror_id now h =
    elim (Option-cases (find (live_mirror mirror_id) db.mirrors)) [
      | inl absent ↦ not_raised (sym (soft_delete_mirror-absent db mirror_id now absent) ∙ h)
      | inr (m, found) ↦
          ap (λ (c : Call (Unit {0})). c.1.mirrors) (sym h)
          ∙ (soft_delete_mirror_exact db mirror_id now m found).1
    ]

-- On the map from the ids of live mirrors to their groups, a successful command does what it
-- means: the two assignments put the given mirrors that exist into the group, the deletion of a group
-- puts its mirrors into the default group, and the deletion of a mirror removes it; everything else
-- stays.
pub run_refines :
    (c : Command) (db db' : Db)
    → run c db ≡ (ok tt, db')
    → (id : ℕ) → assignment db' id ≡ abstract c (default_id db) (assignment db) id
unfolding run abstract assignment assign_mirrors_to_group bulk_assign_mirrors
run_refines (assign group_id ids) db db' h id =
    let (moved, e) = finished_ok db (assign_mirrors_to_group db group_id ids) h in
    let (_, _, h1) = ok_of_bind (or_404 (find (live_group group_id) db.sync_groups)) _ e in
    ap (λ (r : List Mirror × Db). placed r.1.mirrors id) (sym (ok_injective h1))
    ∙ place_assign group_id ids db.mirrors id
run_refines (bulk_assign group_id ids) db db' h id =
    let e = finished_with_ok db (bulk_assign_mirrors db group_id ids) h in
    let (_, _, h1) = ok_of_bind (or_404 (find (live_group group_id) db.sync_groups)) _ e in
    let (there, h2) = guard_passed (all_found db ids) value_error h1 in
    ap (λ (d : Db). placed d.mirrors id) (sym (ok_injective h2))
    ∙ place_each group_id ids db.mirrors id
run_refines (delete_group group_id now) db db' h id =
    let (d, e, moved) = group_moved db group_id now h in
    rw (e, moved) (place_move group_id d db.mirrors id)
run_refines (delete_mirror mirror_id now) db db' h id =
    rw (mirror_deleted_ok db mirror_id now h) (place_delete mirror_id now db.mirrors id)
