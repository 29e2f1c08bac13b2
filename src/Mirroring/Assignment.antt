-- ===== src/Mirroring/Assignment.antt =====
-- The assignment of mirrors to sync groups as a map, and the operations that change it
-- (backend/app/services/sync_group.py, `soft_delete_mirror` in backend/app/services/mirror.py).
pub mod Refines
use big_bug.Prelude.{
  ℕ, Option, none, some, List, [], if◌then◌else◌, text_keys, number_keys, ◌==◌, find, contains,
  Result, ok, err,
}
use big_bug.Mirroring.{Mirror, SyncGroup, Db, Call, MirroringError, refers, live_mirror}
use big_bug.Mirroring.Groups.{
  get_default_group, assign_mirrors_to_group, bulk_assign_mirrors, delete_sync_group, assign_one,
  in_group,
}
use big_bug.Mirroring.Mirrors.{soft_delete_mirror, mirror_deleted}

-- The abstract state: of every id, whether a live mirror has it, and in which group if so.
pub Assignment : Type 0
Assignment = ℕ → Option (Option ℕ)

abbrev pub group_of : Option Mirror → Option (Option ℕ)
group_of none = none
group_of (some m) = some m.sync_group_id

abbrev pub placed : List Mirror → ℕ → Option (Option ℕ)
placed mirrors id = group_of (find (live_mirror id) mirrors)

unfoldable pub assignment : Db → ℕ → Option (Option ℕ)
assignment db = placed db.mirrors

pub data Command : Type 0 where
  assign : (group_id : ℕ) → (mirror_ids : List ℕ) → Command
  bulk_assign : (group_id : ℕ) → (mirror_ids : List ℕ) → Command
  delete_group : (group_id now : ℕ) → Command
  delete_mirror : (mirror_id now : ℕ) → Command

abbrev pub finished : {A : Type 0} → Db → Result MirroringError (A × Db) → Call (Unit {0})
finished db (err why) = (err why, db)
finished db (ok (value, left)) = (ok tt, left)

abbrev pub finished_with : Db → Result MirroringError Db → Call (Unit {0})
finished_with db (err why) = (err why, db)
finished_with db (ok left) = (ok tt, left)

unfoldable pub run : Command → Db → Call (Unit {0})
run (assign group_id mirror_ids) db = finished db (assign_mirrors_to_group db group_id mirror_ids)
run (bulk_assign group_id mirror_ids) db =
    finished_with db (bulk_assign_mirrors db group_id mirror_ids)
run (delete_group group_id now) db = delete_sync_group db group_id now
run (delete_mirror mirror_id now) db = soft_delete_mirror db mirror_id now

-- Putting what is there into a group.
abbrev pub moved_to : ℕ → Option (Option ℕ) → Option (Option ℕ)
moved_to group_id none = none
moved_to group_id (some old) = some (some group_id)

abbrev pub moved_from : ℕ → Option ℕ → Option (Option ℕ) → Option (Option ℕ)
moved_from group_id (some default_id) (some old) =
    some (if refers old group_id then some default_id else old)
moved_from group_id _ at = at

-- What the commands mean for the map, given the id of the default group.
unfoldable pub abstract : Command → Option ℕ → (ℕ → Option (Option ℕ)) → ℕ → Option (Option ℕ)
abstract (assign group_id mirror_ids) default_id a id =
    if contains mirror_ids id then moved_to group_id (a id) else a id
abstract (bulk_assign group_id mirror_ids) default_id a id =
    if contains mirror_ids id then moved_to group_id (a id) else a id
abstract (delete_group group_id now) default_id a id = moved_from group_id default_id (a id)
abstract (delete_mirror mirror_id now) default_id a id = if mirror_id == id then none else a id

abbrev pub id_of : Result MirroringError SyncGroup → Option ℕ
id_of (err why) = none
id_of (ok group) = some group.id

unfoldable pub default_id : Db → Option ℕ
default_id db = id_of (get_default_group db).0
