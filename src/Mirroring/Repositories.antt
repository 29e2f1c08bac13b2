-- ===== src/Mirroring/Repositories.antt =====
-- Soft deletion and restoring of source repositories and source groups (the handlers
-- `delete_source_repository`, `restore_source_repository`, `delete_source_group` and
-- `restore_source_group` in backend/app/api/mirroring.py, behind their permission guards).
pub mod Keeps
use big_bug.Prelude.{
  ℕ, Bool, true, false, not, ◌&&◌, ◌||◌, Option, none, some, [], text_keys, number_keys, ◌==◌, any,
  find, update_where, Result, guard, ◌>>=◌, ◌>>◌, ok, err,
}
use big_bug.Identity.{Db as AccessDb}
use big_bug.Rbac.Access.{check_scope_access}
use big_bug.Rbac.{Outcome}
use big_bug.Mirroring.{
  value_error, forbidden, SourceRepository, Db, MirroringError, or_404, forbidden, bad_request,
  conflict,
}
use big_bug.Mirroring.Mirrors.{of_repository, repository_deleted, repository_restored}

-- An unknown user makes `check_scope_access` raise a `ValueError`.
unfoldable pub scope_allowed : Outcome Bool → Result MirroringError (Unit {0})
scope_allowed (err why) = err value_error
scope_allowed (ok false) = err forbidden
scope_allowed (ok true) = ok tt

unfoldable pub group_in_scope : AccessDb → ℕ → Option ℕ → Result MirroringError (Unit {0})
unfolding scope_allowed check_scope_access
group_in_scope access user_id none = ok tt
group_in_scope access user_id (some group_id) =
    scope_allowed (check_scope_access access user_id "source_group" group_id)

unfoldable pub _get_scoped_repository :
    AccessDb → Db → ℕ → ℕ → Bool → Result MirroringError SourceRepository
unfolding group_in_scope
_get_scoped_repository access db user_id repository_id include_deleted = do
  repo ← or_404 (
      find (λ r. r.id == repository_id && (include_deleted || not r.is_deleted))
        db.source_repositories)
  checked ← group_in_scope access user_id repo.source_group_id
  ok repo

unfoldable pub delete_source_repository : AccessDb → Db → ℕ → ℕ → ℕ → Result MirroringError Db
unfolding _get_scoped_repository
delete_source_repository access db user_id repository_id now = do
  repo ← _get_scoped_repository access db user_id repository_id false
  guard (not (any (of_repository repo.id) db.mirrors)) conflict
  ok (record db {
    source_repositories =
        update_where (λ r. r.id == repository_id) (repository_deleted now) db.source_repositories;
  })

unfoldable pub restore_source_repository : AccessDb → Db → ℕ → ℕ → Result MirroringError Db
unfolding _get_scoped_repository
restore_source_repository access db user_id repository_id = do
  repo ← _get_scoped_repository access db user_id repository_id true
  guard repo.is_deleted bad_request
  ok (record db {
    source_repositories =
        update_where (λ r. r.id == repository_id) repository_restored db.source_repositories;
  })

unfoldable pub delete_source_group : Db → ℕ → ℕ → Result MirroringError Db
delete_source_group db group_id now = do
  group ← or_404 (find (λ g. g.id == group_id && not g.is_deleted) db.source_groups)
  ok (record db {
    source_groups =
        update_where (λ g. g.id == group_id)
          (λ g. record g { is_deleted = true; deleted_at = some now }) db.source_groups;
  })

unfoldable pub restore_source_group : Db → ℕ → Result MirroringError Db
restore_source_group db group_id = do
  group ← or_404 (find (λ g. g.id == group_id) db.source_groups)
  guard group.is_deleted bad_request
  ok (record db {
    source_groups =
        update_where (λ g. g.id == group_id)
          (λ g. record g { is_deleted = false; deleted_at = none }) db.source_groups;
  })
