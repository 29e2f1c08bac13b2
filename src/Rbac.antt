-- ===== src/Rbac.antt =====
-- Access control (backend/app/services/rbac_service.py and backend/app/core/rbac.py): the errors
-- that its operations raise. The operations stand in the modules below.
pub mod Permissions
pub mod Roles
pub mod Consistent
pub mod Scope
pub mod Access
pub mod Grants
pub mod Steps
mod Tests
pub mod Guards
use big_bug.Prelude.{
  ℕ, zero, suc, ◌+◌, ◌-◌, ◌*◌, ◌≤◌, ◌<◌, String, ◌≡◌, refl, sym, ap, ◌∙◌, subst, ◌≢◌, ◌↔◌, ◌⊎◌, inl,
  inr, Bool, true, false, not, ◌&&◌, ◌||◌, Option, none, some, List, [], ◌∷◌, ◌++◌, map, arith, ltb,
  leb, if◌then◌else◌, same_number_iff, HasEquality, ◌==◌, number_keys, text_keys, is_some,
  Bool-cases, Option-cases, length, any, all, select, delete_where, find, any-append, any-select,
  all-append, all-select, all_mono, find_sound, find-none, contains, contains-append, distinct,
  update_where, first, mem-any, select_congr, unique, unique-append_one, unique-select, any-unique,
  Result, ◌>>=◌, ◌>>◌, guard, ok, err,
}

-- The exceptions of backend/app/core/exceptions.py. `integrity_error` is the database's refusal of
-- a row that breaks a unique or a foreign key, `user_not_found` the `ValueError` of the service.
pub data RbacError : Type 0 where
  permission_not_found cannot_modify_builtin_role role_has_users role_not_found : RbacError
  user_not_found integrity_error unauthorized forbidden : RbacError

abbrev pub Outcome : Type 0 → Type 0
Outcome A = Result RbacError A
