-- ===== src/Mirroring/Cleanup/Gone.antt =====
-- What a cleanup pass surely deletes (backend/app/services/cleanup.py), after a soft deletion
-- (`soft_delete_mirror` in backend/app/services/mirror.py).
use big_bug.Prelude.{
  ℕ, ◌+◌, ◌<◌, ◌≡◌, refl, sym, ◌∙◌, Bool, true, false, not, ◌&&◌, some, List, [], ◌∷◌, arith, ltb,
  text_keys, number_keys, ◌==◌, any, select, delete_where, find, update_where, any-map,
  is_some-find, any-delete_where,
}
use big_bug.Mirroring.{Mirror, MirrorLog, Db, live_mirror}
use big_bug.Mirroring.Mirrors.{soft_delete_mirror, mirror_deleted}
use big_bug.Mirroring.Mirrors.Deleted.{soft_delete_mirror_exact}
use big_bug.Mirroring.Cleanup.{
  run_cleanup, delete_mirrors, delete_groups, delete_runs, forget_runs, delete_repositories,
  delete_source_groups, delete_pipelines, after_logs, after_mirrors, after_groups,
  after_repositories, after_source_groups, after_pipelines, expired_mirror, old_log,
}

still_none {ℓ} :
    {A : Type ℓ} (p q : A → Bool) (xs : List A) → any p xs ≡ false → any p (select q xs) ≡ false
still_none p q [] h = refl
still_none p q (x ∷ xs) h = ground (arith, still_none p q xs)

abbrev has_id : ℕ → Mirror → Bool
has_id id m = m.id == id

expired_gone :
    (now retention id t : ℕ) (xs : List Mirror)
    → ltb (t + retention) now ≡ true
    → any (has_id id) (
        delete_where
          (expired_mirror now retention)
          (update_where (has_id id) (mirror_deleted t) xs))
      ≡ false
expired_gone now retention id t [] late = refl
expired_gone now retention id t (m ∷ xs) late = ground (arith, expired_gone now retention id t xs)

abbrev of_mirror : ℕ → MirrorLog → Bool
of_mirror id l = l.mirror_id == id

no_mirror :
    (p : Mirror → Bool) (id : ℕ) (db : Db)
    → any (has_id id) db.mirrors ≡ false
    → any (has_id id) (delete_mirrors p db).mirrors ≡ false
unfolding delete_mirrors
no_mirror p id db h = still_none (has_id id) (λ m. not (p m)) db.mirrors h

no_log :
    (p : Mirror → Bool) (id : ℕ) (db : Db)
    → any (of_mirror id) db.mirror_logs ≡ false
    → any (of_mirror id) (delete_mirrors p db).mirror_logs ≡ false
unfolding delete_mirrors
no_log p id db h =
    still_none (of_mirror id) (λ l. not (any (λ m. m.id == l.mirror_id && p m) db.mirrors))
      db.mirror_logs h

-- The mirrors of the later steps are among those that the second step leaves.
mirrors_gone :
    (now retention id : ℕ) (db : Db)
    → any (has_id id) (after_mirrors now retention (after_logs now retention db)).mirrors ≡ false
    → any (has_id id) (run_cleanup now retention db).1.mirrors ≡ false
unfolding run_cleanup after_pipelines after_source_groups after_repositories after_groups
    delete_pipelines delete_source_groups delete_repositories delete_groups
mirrors_gone now retention id db h =
    let db1 = after_logs now retention db in
    let db2 = after_mirrors now retention db1 in
    let db3 = after_groups now retention db2 in
    let db4 = after_repositories now retention db3 in
    let db5 = after_source_groups now retention db4 in
    no_mirror _ id db5 (no_mirror _ id db4 (no_mirror _ id db3 (no_mirror _ id db2 h)))

logs_gone :
    (now retention id : ℕ) (db : Db)
    → any (of_mirror id) (after_logs now retention db).mirror_logs ≡ false
    → any (of_mirror id) (run_cleanup now retention db).1.mirror_logs ≡ false
unfolding run_cleanup after_pipelines after_source_groups after_repositories after_groups
    after_mirrors delete_pipelines delete_source_groups delete_repositories delete_groups
    delete_runs
logs_gone now retention id db h =
    let db1 = after_logs now retention db in
    let db2 = after_mirrors now retention db1 in
    let db3 = after_groups now retention db2 in
    let db4 = after_repositories now retention db3 in
    let db5 = after_source_groups now retention db4 in
    any-map (of_mirror id) (forget_runs _ db5.pipeline_runs) _
    ∙ no_log _ id db5 (no_log _ id db4 (no_log _ id db3 (no_log _ id db2 (no_log _ id db1 h))))

all_logs_gone :
    (now retention id : ℕ) (db : Db)
    → any (λ m. m.id == id && expired_mirror now retention m) db.mirrors ≡ true
    → any (of_mirror id) (after_logs now retention db).mirror_logs ≡ false
unfolding after_logs old_log
all_logs_gone now retention id db h =
    any-delete_where (of_mirror id) _ db.mirror_logs
      (λ l e. let same : l.mirror_id ≡ id = (number_keys.agrees l.mirror_id id).0 e in rw same h)

expired_there :
    (now retention id t : ℕ) (xs : List Mirror)
    → ltb (t + retention) now ≡ true
    → any (live_mirror id) xs ≡ true
    → any
        (λ m. m.id == id && expired_mirror now retention m)
        (update_where (has_id id) (mirror_deleted t) xs)
      ≡ true
expired_there now retention id t [] late h = h
expired_there now retention id t (m ∷ xs) late h =
    ground (arith, expired_there now retention id t xs)

-- A mirror that was live when it was soft-deleted at `t`, whether or not that call raised, and all
-- its log entries are gone after any cleanup pass that runs more than the retention period later.
pub soft_delete-cleanup :
    (db : Db) (mirror_id t now retention : ℕ) (m : Mirror)
    → find (live_mirror mirror_id) db.mirrors ≡ some m
    → t + retention < now
    → (any
          (λ (x : Mirror). x.id == mirror_id)
          (run_cleanup now retention (soft_delete_mirror db mirror_id t).1).1.mirrors
        ≡ false)
      × (any
            (λ (l : MirrorLog). l.mirror_id == mirror_id)
            (run_cleanup now retention (soft_delete_mirror db mirror_id t).1).1.mirror_logs
          ≡ false)
unfolding after_mirrors after_logs delete_mirrors
soft_delete-cleanup db mirror_id t now retention m found late =
    let left = (soft_delete_mirror db mirror_id t).1 in
    let rows = (soft_delete_mirror_exact db mirror_id t m found).1 in
    let late_b : ltb (t + retention) now ≡ true = ground arith in
    let there : any (live_mirror mirror_id) db.mirrors ≡ true =
      sym (is_some-find (live_mirror mirror_id) db.mirrors) ∙ rw found refl in
    (
      mirrors_gone now retention mirror_id left
          (rw rows (expired_gone now retention mirror_id t db.mirrors late_b)),
      logs_gone now retention mirror_id left (
          all_logs_gone now retention mirror_id left
            (rw rows (expired_there now retention mirror_id t db.mirrors late_b there))),
    )
