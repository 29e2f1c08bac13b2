-- ===== src/Mirroring/Mirrors/Deleted.antt =====
-- The soft deletion of a mirror with its cascade (`soft_delete_mirror` in
-- backend/app/services/mirror.py).
use big_bug.Prelude.{
  ℕ, ◌≡◌, refl, not, ◌&&◌, none, some, List, [], ◌∷◌, arith, leb, if◌then◌else◌, text_keys,
  number_keys, ◌==◌, length, select, find, update_where, ok, err,
}
use big_bug.Mirroring.{
  not_found, Mirror, Db, SourceRepository, Call, after, live_mirror, live_repository,
  multiple_results_found, scalar_one_or_none, _get_mirror_or_404,
}
use big_bug.Mirroring.Mirrors.{
  soft_delete_mirror, set_mirror, mirror_deleted, of_repository, cascade, repository_deleted,
}

-- The other live mirrors of the repository.
unfoldable pub siblings : ℕ → ℕ → List Mirror → List Mirror
siblings source_repo_id mirror_id =
    select (λ m. of_repository source_repo_id m && not (m.id == mirror_id))

remaining_lem :
    (source_repo_id mirror_id now : ℕ) (xs : List Mirror)
    → select
        (of_repository source_repo_id)
        (update_where (λ m. m.id == mirror_id) (mirror_deleted now) xs)
      ≡ siblings source_repo_id mirror_id xs
unfolding siblings
remaining_lem source_repo_id mirror_id now [] = refl
remaining_lem source_repo_id mirror_id now (m ∷ xs) =
    ground (arith, remaining_lem source_repo_id mirror_id now xs)

-- What the rest of the call does with the remaining mirrors.
unfoldable pub cascaded : ℕ → ℕ → List Mirror → Db → Call (Unit {0})
unfolding cascade
cascaded source_repo_id now remaining db =
    after (scalar_one_or_none remaining, db) (λ one db. (ok tt, cascade source_repo_id now one db))

pub soft_delete_mirror-found :
    (db : Db) (mirror_id now : ℕ) {m : Mirror}
    → find (live_mirror mirror_id) db.mirrors ≡ some m
    → soft_delete_mirror db mirror_id now
      ≡ cascaded m.source_repository_id now
          (siblings m.source_repository_id mirror_id db.mirrors)
          (set_mirror mirror_id (mirror_deleted now) db)
unfolding soft_delete_mirror cascaded _get_mirror_or_404
soft_delete_mirror-found db mirror_id now {m} found =
    rw (found, remaining_lem m.source_repository_id mirror_id now db.mirrors) refl

pub soft_delete_mirror-absent :
    (db : Db) (mirror_id now : ℕ)
    → find (live_mirror mirror_id) db.mirrors ≡ none
    → soft_delete_mirror db mirror_id now ≡ (err not_found, db)
unfolding soft_delete_mirror _get_mirror_or_404
soft_delete_mirror-absent db mirror_id now absent = rw absent refl

abbrev pub repositories_after : ℕ → ℕ → List Mirror → List SourceRepository → List SourceRepository
repositories_after source_repo_id now rest repositories =
    if leb (length rest) 0
    then update_where (live_repository source_repo_id) (repository_deleted now) repositories
    else repositories

cascaded_lem :
    (source_repo_id now : ℕ) (rest : List Mirror) (db : Db)
    → ((cascaded source_repo_id now rest db).0
        ≡ (if leb (length rest) 1 then ok tt else err multiple_results_found))
      × ((cascaded source_repo_id now rest db).1.mirrors ≡ db.mirrors)
      × ((cascaded source_repo_id now rest db).1.source_repositories
          ≡ repositories_after source_repo_id now rest db.source_repositories)
unfolding cascaded
cascaded_lem source_repo_id now [] db = (refl, refl, refl)
cascaded_lem source_repo_id now (x ∷ []) db = (refl, refl, refl)
cascaded_lem source_repo_id now (x ∷ y ∷ rest) db = (ground arith, refl, ground arith)

-- Deleting a live mirror marks that mirror, whatever else happens; the call succeeds exactly when
-- at most one other live mirror of the repository remains, and raises `MultipleResultsFound` after
-- the deletion is committed otherwise; the repository is deleted too exactly when none remains.
pub soft_delete_mirror_exact :
    (db : Db) (mirror_id now : ℕ) (m : Mirror)
    → find (live_mirror mirror_id) db.mirrors ≡ some m
    → ((soft_delete_mirror db mirror_id now).0 ≡ (
        if leb (length (siblings m.source_repository_id mirror_id db.mirrors)) 1
        then ok tt
        else err multiple_results_found))
      × ((soft_delete_mirror db mirror_id now).1.mirrors
          ≡ update_where (λ x. x.id == mirror_id) (mirror_deleted now) db.mirrors)
      × ((soft_delete_mirror db mirror_id now).1.source_repositories
          ≡ repositories_after m.source_repository_id now
              (siblings m.source_repository_id mirror_id db.mirrors)
              db.source_repositories)
soft_delete_mirror_exact db mirror_id now m found =
    rw (soft_delete_mirror-found db mirror_id now found) (
      cascaded_lem m.source_repository_id now (siblings m.source_repository_id mirror_id db.mirrors)
        (set_mirror mirror_id (mirror_deleted now) db))
