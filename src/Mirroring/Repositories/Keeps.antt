-- ===== src/Mirroring/Repositories/Keeps.antt =====
-- Deleting and restoring source repositories keeps the rules (backend/app/api/mirroring.py).
use big_bug.Prelude.{
  ℕ, ◌≡◌, refl, sym, ap, ◌∙◌, subst, Bool, true, false, not, ◌&&◌, ◌||◌, List, [], ◌∷◌, arith,
  text_keys, number_keys, ◌==◌, any, all, find, all_mono, find_sound, update_where,
  unique-update_where, ok_of_bind, guard_passed, ok_injective, all-update_where, ok,
}
use big_bug.Identity.{Db as AccessDb}
use big_bug.Mirroring.{Mirror, SourceRepository, Db, or_404, conflict, bad_request, live_repository}
use big_bug.Mirroring.Mirrors.{of_repository, repository_deleted, repository_restored}
use big_bug.Mirroring.Repositories.{
  delete_source_repository, restore_source_repository, _get_scoped_repository, group_in_scope,
}
use big_bug.Mirroring.Sound.{IsSound, sourced, repository_undated}
use big_bug.Mirroring.Mirrors.Restored.{references_kept}
use big_bug.Mirroring.Mirrors.Keeps.{or_404_ok}

scoped_id :
    (access : AccessDb) (db : Db) (user_id repository_id : ℕ) (include_deleted : Bool)
    {repo : SourceRepository}
    → _get_scoped_repository access db user_id repository_id include_deleted ≡ ok repo
    → repo.id ≡ repository_id
unfolding _get_scoped_repository
scoped_id access db user_id repository_id include_deleted {repo} h =
    let (r, found, h1) =
      ok_of_bind
        (or_404 (
          find (λ r. r.id == repository_id && (include_deleted || not r.is_deleted))
            db.source_repositories))
        _ h in
    let (_, _, h2) = ok_of_bind (group_in_scope access user_id r.source_group_id) _ h1 in
    let sound =
      find_sound (λ r. r.id == repository_id && (include_deleted || not r.is_deleted))
        db.source_repositories (or_404_ok _ found) in
    ap (λ (x : SourceRepository). x.id) (sym (ok_injective h2))
    ∙ (number_keys.agrees r.id repository_id).0 (ground arith)

kept_live :
    (k id now : ℕ) (rs : List SourceRepository)
    → (k == id) ≡ false
    → any (live_repository k) (update_where (λ r. r.id == id) (repository_deleted now) rs)
      ≡ any (live_repository k) rs
kept_live k id now [] ne = refl
kept_live k id now (r ∷ rs) ne = ground (arith, kept_live k id now rs)

sources_kept :
    (rs : List SourceRepository) (id now : ℕ) (xs : List Mirror)
    → any (of_repository id) xs ≡ false
    → all (sourced rs) xs ≡ true
    → all (sourced (update_where (λ r. r.id == id) (repository_deleted now) rs)) xs ≡ true
sources_kept rs id now [] n h = refl
sources_kept rs id now (m ∷ xs) n h =
    ground (arith, kept_live m.source_repository_id id now rs, sources_kept rs id now xs)

back_live :
    (k id : ℕ) (rs : List SourceRepository)
    → any (live_repository k) rs ≡ true
    → any (live_repository k) (update_where (λ r. r.id == id) repository_restored rs) ≡ true
back_live k id [] h = h
back_live k id (r ∷ rs) h = ground (arith, back_live k id rs)

-- A change of repositories under which the live mirrors stay sourced.
repositories-IsSound :
    (db : Db) (id : ℕ) (f : SourceRepository → SourceRepository)
    → ((r : SourceRepository) → (f r).id ≡ r.id)
    → ((r : SourceRepository) → repository_undated (f r) ≡ true)
    → all (sourced (update_where (λ r. r.id == id) f db.source_repositories)) db.mirrors ≡ true
    → IsSound db
    → IsSound (record db {
      source_repositories = update_where (λ r. r.id == id) f db.source_repositories;
    })
repositories-IsSound db id f same undated sources s = record {
  mirror_ids = s.mirror_ids;
  mirror_sequence = s.mirror_sequence;
  repository_ids =
      unique-update_where (λ (r : SourceRepository). r.id) (λ r. r.id == id) f same
        db.source_repositories s.repository_ids;
  references =
      all_mono _ _ db.mirrors
        (λ m h. references_kept (λ r. r.id == id) f db.source_repositories m same ∙ h) s.references;
  live_sources = sources;
  mirrors_undated = s.mirrors_undated;
  repositories_undated =
      all-update_where _ (λ r. r.id == id) f db.source_repositories (λ r t h. undated r)
        s.repositories_undated;
}

pub delete_source_repository-IsSound :
    (access : AccessDb) (db : Db) (user_id repository_id now : ℕ) {db' : Db}
    → delete_source_repository access db user_id repository_id now ≡ ok db'
    → IsSound db
    → IsSound db'
unfolding delete_source_repository
delete_source_repository-IsSound access db user_id repository_id now h s =
    let (repo, found, h1) =
      ok_of_bind (_get_scoped_repository access db user_id repository_id false) _ h in
    let same = scoped_id access db user_id repository_id false found in
    let (unused, h2) = guard_passed (not (any (of_repository repo.id) db.mirrors)) conflict h1 in
    let absent : any (of_repository repository_id) db.mirrors ≡ false =
      subst (λ k. any (of_repository k) db.mirrors ≡ false) same (ground arith) in
    subst IsSound (ok_injective h2) (
      repositories-IsSound db repository_id (repository_deleted now) (λ r. refl) (λ r. refl)
        (sources_kept db.source_repositories repository_id now db.mirrors absent s.live_sources) s)

pub restore_source_repository-IsSound :
    (access : AccessDb) (db : Db) (user_id repository_id : ℕ) {db' : Db}
    → restore_source_repository access db user_id repository_id ≡ ok db'
    → IsSound db
    → IsSound db'
unfolding restore_source_repository
restore_source_repository-IsSound access db user_id repository_id h s =
    let (repo, found, h1) =
      ok_of_bind (_get_scoped_repository access db user_id repository_id true) _ h in
    let (gone, h2) = guard_passed repo.is_deleted bad_request h1 in
    subst IsSound (ok_injective h2) (
      repositories-IsSound db repository_id repository_restored (λ r. refl) (λ r. refl)
        (all_mono _ _ db.mirrors
          (λ m live.
            ground (arith, back_live m.source_repository_id repository_id db.source_repositories))
          s.live_sources)
        s)
