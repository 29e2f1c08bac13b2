-- ===== src/Mirroring/Mirrors.antt =====
-- Mirrors (`MirrorService` in backend/app/services/mirror.py) and the removal of source
-- repositories (`delete_source_repository` and `restore_source_repository` in
-- backend/app/api/mirroring.py). Audit events and log lines are left out.
pub mod Keeps
pub mod Deleted
pub mod Restored
pub mod Roundtrip
pub mod Repeated
use big_bug.Prelude.{
  ℕ, ◌+◌, String, Bool, true, false, not, ◌&&◌, Option, none, some, List, [], ◌∷◌, ◌++◌, leb,
  if◌then◌else◌, text_keys, number_keys, ◌==◌, length, any, all, select, find, contains,
  update_where, Result, guard, ◌>>=◌, ◌>>◌, ok,
}
use big_bug.Mirroring.{
  Mirror, SourceRepository, Db, MirroringError, bad_request, _get_mirror_or_404, or_404, refers,
  _get_sync_group_or_404, _get_source_repo_or_404, live_repository, scalar_one_or_none, Call, after,
}
use big_bug.Mirroring.Groups.{given_or, some_or}

abbrev pub status_pending : ℕ
status_pending = 4

pub record MirrorCreate : Type 0 where
  pub source_repository_id : ℕ
  pub sync_group_id : Option ℕ
  pub target_namespace : String
  pub target_project_name : String

-- A sync group that is named must exist.
unfoldable pub group_given : Db → Option ℕ → Result MirroringError (Unit {0})
unfolding _get_sync_group_or_404
group_given db none = ok tt
group_given db (some sg_id) = _get_sync_group_or_404 db sg_id >>= λ group. ok tt

abbrev pub in_named_group : Option ℕ → Mirror → Bool
in_named_group none m = true
in_named_group (some sg_id) m = refers m.sync_group_id sg_id

-- A live mirror of the same repository with the same target, in the group if one is named.
unfoldable pub is_duplicate : MirrorCreate → Mirror → Bool
is_duplicate payload m =
    m.source_repository_id == payload.source_repository_id
    && (m.target_namespace == payload.target_namespace
        && (m.target_project_name == payload.target_project_name
            && (not m.is_deleted && in_named_group payload.sync_group_id m)))

abbrev pub pending_mirror : ℕ → ℕ → Option ℕ → String → String → Mirror
pending_mirror id source_repository_id sync_group_id target_namespace target_project_name = record {
  id = id;
  source_repository_id = source_repository_id;
  sync_group_id = sync_group_id;
  target_namespace = target_namespace;
  target_project_name = target_project_name;
  target_project_id = none;
  status_flag = status_pending;
  status_text = "Pending";
  is_deleted = false;
  deleted_at = none;
}

-- The duplicates only cause a warning, but the query for them expects one row at most. What the call
-- does after the commit is Mirroring/Sync.auto_sync.
unfoldable pub create_mirror : Db → MirrorCreate → Result MirroringError (Mirror × Db)
unfolding group_given is_duplicate _get_source_repo_or_404
create_mirror db payload = do
  source_repo ← _get_source_repo_or_404 db payload.source_repository_id
  checked ← group_given db payload.sync_group_id
  existing_mirror ← scalar_one_or_none (select (is_duplicate payload) db.mirrors)
  let mirror : Mirror =
      pending_mirror db.next_mirror_id payload.source_repository_id payload.sync_group_id
        payload.target_namespace payload.target_project_name
  ok (
    mirror,
    record db { mirrors = db.mirrors ++ mirror ∷ []; next_mirror_id = db.next_mirror_id + 1 },
  )

pub record MirrorBulkCreate : Type 0 where
  pub mirrors : List MirrorCreate
  pub default_sync_group_id : Option ℕ
  pub default_target_namespace : Option String

-- `a or b` on optional ids and on texts: the id 0 and the empty text count as absent.
abbrev pub id_or : Option ℕ → Option ℕ → Option ℕ
id_or none other = other
id_or (some id) other = if id == 0 then other else some id

abbrev pub text_or : Option String → String → String
text_or none other = other
text_or (some text) other = if text == "" then other else text

unfoldable pub bulk_row : MirrorBulkCreate → ℕ → MirrorCreate → Mirror
bulk_row payload id m =
    pending_mirror id m.source_repository_id (id_or m.sync_group_id payload.default_sync_group_id)
      (text_or (some m.target_namespace) (text_or payload.default_target_namespace ""))
      m.target_project_name

unfoldable pub bulk_rows : MirrorBulkCreate → ℕ → List MirrorCreate → List Mirror
unfolding bulk_row
bulk_rows payload id [] = []
bulk_rows payload id (m ∷ mirrors) = bulk_row payload id m ∷ bulk_rows payload (id + 1) mirrors

-- The duplicates are only counted for the audit event.
unfoldable pub bulk_create_mirrors :
    Db → MirrorBulkCreate → Result MirroringError (List Mirror × Db)
unfolding bulk_rows
bulk_create_mirrors db payload = do
  guard (not (leb (length payload.mirrors) 0)) bad_request
  guard (leb (length payload.mirrors) 500) bad_request
  guard
      (all (λ m. any (live_repository m.source_repository_id) db.source_repositories)
        payload.mirrors)
      bad_request
  let created : List Mirror = bulk_rows payload db.next_mirror_id payload.mirrors
  ok (
    created,
    record db {
      mirrors = db.mirrors ++ created;
      next_mirror_id = db.next_mirror_id + length payload.mirrors;
    },
  )

-- The sorting of `check_duplicates`: the mirrors of the given repositories, those in the group, and
-- those in other groups or none.
pub record Duplicates : Type 0 where
  pub duplicates : List Mirror
  pub accessible : List Mirror
  pub inaccessible : List Mirror

unfoldable pub check_duplicates : Db → List ℕ → ℕ → Duplicates
check_duplicates db source_repo_ids sync_group_id =
    let all_mirrors =
      select (λ m. contains source_repo_ids m.source_repository_id && not m.is_deleted)
        db.mirrors in
    record {
      duplicates = all_mirrors;
      accessible = select (λ m. refers m.sync_group_id sync_group_id) all_mirrors;
      inaccessible = select (λ m. not (refers m.sync_group_id sync_group_id)) all_mirrors;
    }

pub record MirrorUpdate : Type 0 where
  pub sync_group_id : Option ℕ
  pub target_namespace : Option String
  pub target_project_name : Option String

unfoldable pub changed_mirror : MirrorUpdate → Mirror → Mirror
changed_mirror payload m = record m {
  sync_group_id = some_or payload.sync_group_id m.sync_group_id;
  target_namespace = given_or payload.target_namespace m.target_namespace;
  target_project_name = given_or payload.target_project_name m.target_project_name;
}

abbrev pub set_mirror : ℕ → (Mirror → Mirror) → Db → Db
set_mirror mirror_id change db = record db {
  mirrors = update_where (λ m. m.id == mirror_id) change db.mirrors;
}

unfoldable pub update_mirror : Db → ℕ → MirrorUpdate → Result MirroringError Db
unfolding group_given changed_mirror _get_mirror_or_404
update_mirror db mirror_id payload = do
  mirror ← _get_mirror_or_404 db mirror_id
  checked ← group_given db payload.sync_group_id
  ok (set_mirror mirror_id (changed_mirror payload) db)

abbrev pub mirror_deleted : ℕ → Mirror → Mirror
mirror_deleted now m = record m { is_deleted = true; deleted_at = some now }

abbrev pub repository_deleted : ℕ → SourceRepository → SourceRepository
repository_deleted now r = record r { is_deleted = true; deleted_at = some now }

abbrev pub mirror_restored : Mirror → Mirror
mirror_restored m = record m { is_deleted = false; deleted_at = none }

abbrev pub repository_restored : SourceRepository → SourceRepository
repository_restored r = record r { is_deleted = false; deleted_at = none }

abbrev pub restore_repository : ℕ → Db → Db
restore_repository repository_id db = record db {
  source_repositories =
      update_where (λ r. r.id == repository_id && r.is_deleted) repository_restored
        db.source_repositories;
}

-- The cascade: the repository is deleted too when no live mirror of it remains.
unfoldable pub cascade : ℕ → ℕ → Option Mirror → Db → Db
cascade source_repo_id now (some remaining) db = db
cascade source_repo_id now none db = record db {
  source_repositories =
      update_where (live_repository source_repo_id) (repository_deleted now) db.source_repositories;
}

abbrev pub of_repository : ℕ → Mirror → Bool
of_repository source_repo_id m = m.source_repository_id == source_repo_id && not m.is_deleted

-- The deletion of the mirror is committed before the cascade asks for the remaining mirrors.
unfoldable pub soft_delete_mirror : Db → ℕ → ℕ → Call (Unit {0})
unfolding cascade _get_mirror_or_404
soft_delete_mirror db mirror_id now =
    after (_get_mirror_or_404 db mirror_id, db)
      (λ mirror db.
        let left : Db = set_mirror mirror_id (mirror_deleted now) db in
        after
          (
            scalar_one_or_none (select (of_repository mirror.source_repository_id) left.mirrors),
            left,
          )
          (λ remaining left. (ok tt, cascade mirror.source_repository_id now remaining left)))

unfoldable pub restore_mirror : Db → ℕ → Result MirroringError Db
restore_mirror db mirror_id = do
  mirror ← or_404 (find (λ m. m.id == mirror_id) db.mirrors)
  ok (
      if mirror.is_deleted
      then restore_repository mirror.source_repository_id (set_mirror mirror_id mirror_restored db)
      else db)
