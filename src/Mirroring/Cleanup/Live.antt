-- ===== src/Mirroring/Cleanup/Live.antt =====
-- What the last steps of a cleanup pass, and the whole pass, never delete
-- (backend/app/services/cleanup.py).
use big_bug.Prelude.{
  ℕ, ◌≡◌, refl, sym, ◌∙◌, inl, inr, Bool, true, false, not, ◌&&◌, ◌||◌, List, [], ◌∷◌, arith,
  text_keys, number_keys, ◌==◌, Option-cases, any, all, find, any-select, all_mono, find_sound,
  find-none, unique, only_row, found_with, select-delete_where, any_mono, all-find,
}
use big_bug.Mirroring.{
  Mirror, SourceRepository, SyncGroup, Pipeline, SourceGroup, Db, refers, live_repository,
}
use big_bug.Mirroring.Sound.{IsSound, sourced}
use big_bug.Mirroring.Cleanup.{
  run_cleanup, delete_mirrors, delete_groups, delete_repositories, delete_source_groups,
  delete_pipelines, after_logs, after_mirrors, after_groups, after_repositories,
  after_source_groups, after_pipelines, old_source_group, old_pipeline,
}
use big_bug.Mirroring.Cleanup.Keeps.{
  after_logs-IsSound, after_mirrors-IsSound, after_groups-IsSound, after_repositories-IsSound,
}
use big_bug.Mirroring.Cleanup.Safe.{
  childless, never, stays, Kept, Kept-trans, after_logs-Kept, after_mirrors-Kept, after_groups-Kept,
  after_repositories-Kept,
}

-- With unique ids, a live row is the one with its id, so that no row with its id is taken.
untaken :
    (taken : SourceRepository → Bool) (k : ℕ) (rs : List SourceRepository)
    → unique (λ (r : SourceRepository). r.id) rs ≡ true
    → all (λ r. not (taken r) || not (not r.is_deleted)) rs ≡ true
    → any (live_repository k) rs ≡ true
    → any (λ r. r.id == k && taken r) rs ≡ false
untaken taken k rs u h there = elim (Option-cases (find (live_repository k) rs)) [
  | inl absent ↦ ground (arith, find-none (live_repository k) rs)
  | inr (r, found) ↦
      let lives = find_sound (live_repository k) rs found in
      let by_id =
        found_with (λ (r : SourceRepository). r.id) k (λ r. not r.is_deleted) rs u found in
      let free =
        all-find (λ r. not (taken r) || not (not r.is_deleted)) (λ r. r.id == k) rs h by_id in
      let only =
        only_row (λ (r : SourceRepository). r.id) k (λ r. not (taken r)) rs u by_id
          (ground arith) in
      none_of rs only
]
  where
    none_of :
        (xs : List SourceRepository)
        → all (λ r. not (r.id == k) || not (taken r)) xs ≡ true
        → any (λ r. r.id == k && taken r) xs ≡ false
    none_of [] e = refl
    none_of (x ∷ xs) e = ground (arith, none_of xs)

module _ (now retention : ℕ) (groups : List SyncGroup) where
  after_source_groups-Kept :
      (db : Db) → IsSound db → Kept groups db (after_source_groups now retention db)
  unfolding after_source_groups delete_source_groups delete_repositories delete_mirrors
      old_source_group
  after_source_groups-Kept db s =
      let rows =
        childless (λ (r : SourceRepository) (g : SourceGroup). refers r.source_group_id g.id)
          (λ r. not r.is_deleted) (old_source_group now retention db) db.source_repositories
          db.source_groups (λ g old. ground arith) in
      let taken : SourceRepository → Bool = λ r.
        any (λ g. refers r.source_group_id g.id && old_source_group now retention db g)
          db.source_groups in
      let gone : Mirror → Bool =
        λ m. any (λ r. r.id == m.source_repository_id && taken r) db.source_repositories in
      record {
        mirrors = select-delete_where (stays groups) gone db.mirrors (
            all_mono (sourced db.source_repositories) (λ m. not (gone m) || not (stays groups m))
              db.mirrors
              (λ m h. ground (
                arith,
                untaken taken m.source_repository_id db.source_repositories s.repository_ids rows,
              ))
              s.live_sources);
        sync_groups = refl;
        source_repositories = select-delete_where _ _ db.source_repositories rows;
        source_groups =
            select-delete_where _ (old_source_group now retention db) db.source_groups
              (never _ _ db.source_groups (λ g h. ground arith));
        pipelines = refl;
      }

  after_pipelines-Kept :
      (db : Db)
      → ((m : Mirror)
          → any (λ g. refers m.sync_group_id g.id && g.is_deleted) db.sync_groups ≡ true
          → any (λ g. refers m.sync_group_id g.id && g.is_deleted) groups ≡ true)
      → Kept groups db (after_pipelines now retention db)
  unfolding after_pipelines delete_pipelines delete_groups delete_mirrors old_pipeline
  after_pipelines-Kept db within =
      let rows =
        childless (λ (g : SyncGroup) (q : Pipeline). refers g.pipeline_id q.id)
          (λ g. not g.is_deleted) (old_pipeline now retention db) db.sync_groups db.pipelines
          (λ q old. ground arith) in
      record {
        mirrors = select-delete_where (stays groups) _ db.mirrors (
            never _ (stays groups) db.mirrors
              (λ m h. ground (arith, within m, deleted_too m db.sync_groups _ rows h)));
        sync_groups = select-delete_where _ _ db.sync_groups rows;
        source_repositories = refl;
        source_groups = refl;
        pipelines =
            select-delete_where _ (old_pipeline now retention db) db.pipelines
              (never _ _ db.pipelines (λ q h. ground arith));
      }
    where
      deleted_too :
          (m : Mirror) (gs : List SyncGroup) (taken : SyncGroup → Bool)
          → all (λ g. not (taken g) || not (not g.is_deleted)) gs ≡ true
          → any (λ g. refers m.sync_group_id g.id && taken g) gs ≡ true
          → any (λ g. refers m.sync_group_id g.id && g.is_deleted) gs ≡ true
      deleted_too m [] taken h t = t
      deleted_too m (g ∷ gs) taken h t = ground (arith, deleted_too m gs taken)

-- The sync groups of the last step are among those of the first.
within :
    (now retention : ℕ) (db : Db) (m : Mirror)
    → any
        (λ g. refers m.sync_group_id g.id && g.is_deleted)
        (after_source_groups now retention (
          after_repositories now retention (
            after_groups now retention
              (after_mirrors now retention (after_logs now retention db))))).sync_groups
      ≡ true
    → any (λ g. refers m.sync_group_id g.id && g.is_deleted) db.sync_groups ≡ true
unfolding after_source_groups after_repositories after_groups after_mirrors after_logs
    delete_source_groups delete_repositories delete_groups delete_mirrors
within now retention db m h =
    any_mono _ _ db.sync_groups (λ g e. ground arith)
      (sym (any-select (λ g. refers m.sync_group_id g.id && g.is_deleted) _ db.sync_groups) ∙ h)

-- In tables whose live mirrors have live repositories and whose ids are unique, a cleanup pass,
-- with all cascades, deletes no row that is not soft-deleted: no sync group, repository, source
-- group or pipeline, and no mirror, provided the mirror is in no soft-deleted sync group.
pub run_cleanup-Kept :
    (now retention : ℕ) (db : Db)
    → IsSound db
    → Kept db.sync_groups db (run_cleanup now retention db).1
unfolding run_cleanup
run_cleanup-Kept now retention db s =
    let gs = db.sync_groups in
    let db1 = after_logs now retention db in
    let s1 = after_logs-IsSound now retention db s in
    let db2 = after_mirrors now retention db1 in
    let s2 = after_mirrors-IsSound now retention db1 s1 in
    let db3 = after_groups now retention db2 in
    let s3 = after_groups-IsSound now retention db2 s2 in
    let db4 = after_repositories now retention db3 in
    let s4 = after_repositories-IsSound now retention db3 s3 in
    let db5 = after_source_groups now retention db4 in
    let k1 = after_logs-Kept now retention gs db in
    let k2 = Kept-trans gs db db1 db2 k1 (after_mirrors-Kept now retention gs db1) in
    let k3 = Kept-trans gs db db2 db3 k2 (after_groups-Kept now retention gs db2) in
    let k4 = Kept-trans gs db db3 db4 k3 (after_repositories-Kept now retention gs db3) in
    let k5 = Kept-trans gs db db4 db5 k4 (after_source_groups-Kept now retention gs db4 s4) in
    Kept-trans gs db db5 _ k5 (after_pipelines-Kept now retention gs db5 (within now retention db))
