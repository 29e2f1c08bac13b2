-- ===== src/Mirroring/Cleanup/Keeps.antt =====
-- A cleanup pass keeps the rules of the mirroring tables (backend/app/services/cleanup.py).
use big_bug.Prelude.{
  ℕ, ◌≡◌, refl, inl, inr, Bool, true, false, not, ◌&&◌, List, [], ◌∷◌, arith, text_keys,
  number_keys, ◌==◌, Bool-cases, any, all, delete_where, all-select, unique-select,
}
use big_bug.Mirroring.{Mirror, SourceRepository, SyncGroup, Db, refers}
use big_bug.Mirroring.Sound.{Same-IsSound, IsSound, sourced, referenced}
use big_bug.Mirroring.Cleanup.{
  run_cleanup, after_logs, after_mirrors, after_groups, after_repositories, after_source_groups,
  after_pipelines, delete_source_groups, delete_pipelines, old_group, old_repository,
  old_source_group, old_pipeline, expired_mirror, delete_mirrors, delete_groups,
  delete_repositories,
}

delete_mirrors-IsSound : (p : Mirror → Bool) (db : Db) → IsSound db → IsSound (delete_mirrors p db)
unfolding delete_mirrors
delete_mirrors-IsSound p db s = record {
  mirror_ids = unique-select (λ (m : Mirror). m.id) (λ m. not (p m)) db.mirrors s.mirror_ids;
  mirror_sequence = all-select _ (λ m. not (p m)) db.mirrors s.mirror_sequence;
  repository_ids = s.repository_ids;
  references = all-select _ (λ m. not (p m)) db.mirrors s.references;
  live_sources = all-select _ (λ m. not (p m)) db.mirrors s.live_sources;
  mirrors_undated = all-select _ (λ m. not (p m)) db.mirrors s.mirrors_undated;
  repositories_undated = s.repositories_undated;
}

other_row :
    (c p : SourceRepository → Bool) (k : ℕ) (rs : List SourceRepository)
    → any (λ r. r.id == k && c r) rs ≡ true
    → any (λ r. r.id == k && p r) rs ≡ false
    → any (λ r. r.id == k && c r) (delete_where p rs) ≡ true
other_row c p k [] h n = h
other_row c p k (r ∷ rs) h n = ground (arith, other_row c p k rs)

any_row :
    (p : SourceRepository → Bool) (k : ℕ) (rs : List SourceRepository)
    → any (λ (r : SourceRepository). r.id == k) rs ≡ true
    → any (λ r. r.id == k && p r) rs ≡ false
    → any (λ (r : SourceRepository). r.id == k) (delete_where p rs) ≡ true
any_row p k [] h n = h
any_row p k (r ∷ rs) h n = ground (arith, any_row p k rs)

-- A mirror whose repository goes goes too, so that the others keep theirs.
module _ (p : SourceRepository → Bool) (rs : List SourceRepository) where
  abbrev taken : Mirror → Bool
  taken m = any (λ r. r.id == m.source_repository_id && p r) rs

  references_left :
      (xs : List Mirror)
      → all (referenced rs) xs ≡ true
      → all (referenced (delete_where p rs)) (delete_where taken xs) ≡ true
  references_left [] h = refl
  references_left (m ∷ xs) h = elim (Bool-cases (taken m)) [
    | inl e ↦ rw e (references_left xs (ground arith))
    | inr e ↦
        let kept = any_row p m.source_repository_id rs (ground arith) e in
        rw (e, kept) (references_left xs (ground arith))
  ]

  sources_left :
      (xs : List Mirror)
      → all (sourced rs) xs ≡ true
      → all (sourced (delete_where p rs)) (delete_where taken xs) ≡ true
  sources_left [] h = refl
  sources_left (m ∷ xs) h = elim (Bool-cases (taken m)) [
    | inl e ↦ rw e (sources_left xs (ground arith))
    | inr e ↦ elim (Bool-cases m.is_deleted) [
      | inl gone ↦ rw (e, gone) (sources_left xs (ground arith))
      | inr lives ↦
          let kept =
            other_row (λ r. not r.is_deleted) p m.source_repository_id rs (ground arith) e in
          rw (e, lives, kept) (sources_left xs (ground arith))
    ]
  ]

delete_groups-IsSound : (p : SyncGroup → Bool) (db : Db) → IsSound db → IsSound (delete_groups p db)
unfolding delete_groups
delete_groups-IsSound p db s =
    let d =
      delete_mirrors-IsSound (λ m. any (λ g. refers m.sync_group_id g.id && p g) db.sync_groups) db
        s in
    record {
      mirror_ids = d.mirror_ids;
      mirror_sequence = d.mirror_sequence;
      repository_ids = d.repository_ids;
      references = d.references;
      live_sources = d.live_sources;
      mirrors_undated = d.mirrors_undated;
      repositories_undated = d.repositories_undated;
    }

delete_repositories-IsSound :
    (p : SourceRepository → Bool) (db : Db) → IsSound db → IsSound (delete_repositories p db)
unfolding delete_repositories delete_mirrors
delete_repositories-IsSound p db s =
    let d =
      delete_mirrors-IsSound
        (λ m. any (λ r. r.id == m.source_repository_id && p r) db.source_repositories) db s in
    record {
      mirror_ids = d.mirror_ids;
      mirror_sequence = d.mirror_sequence;
      repository_ids =
          unique-select (λ (r : SourceRepository). r.id) (λ r. not (p r)) db.source_repositories
            s.repository_ids;
      references = references_left p db.source_repositories db.mirrors s.references;
      live_sources = sources_left p db.source_repositories db.mirrors s.live_sources;
      mirrors_undated = d.mirrors_undated;
      repositories_undated =
          all-select _ (λ r. not (p r)) db.source_repositories s.repositories_undated;
    }

module _ (now retention : ℕ) where
  pub after_logs-IsSound : (db : Db) → IsSound db → IsSound (after_logs now retention db)
  unfolding after_logs
  after_logs-IsSound db s =
      Same-IsSound db _ (record { mirrors = refl; sequence = refl; repositories = refl }) s

  pub after_mirrors-IsSound : (db : Db) → IsSound db → IsSound (after_mirrors now retention db)
  unfolding after_mirrors
  after_mirrors-IsSound db s = delete_mirrors-IsSound (expired_mirror now retention) db s

  pub after_groups-IsSound : (db : Db) → IsSound db → IsSound (after_groups now retention db)
  unfolding after_groups
  after_groups-IsSound db s = delete_groups-IsSound (old_group now retention db) db s

  pub after_repositories-IsSound :
      (db : Db) → IsSound db → IsSound (after_repositories now retention db)
  unfolding after_repositories
  after_repositories-IsSound db s =
      delete_repositories-IsSound (old_repository now retention db) db s

  pub after_source_groups-IsSound :
      (db : Db) → IsSound db → IsSound (after_source_groups now retention db)
  unfolding after_source_groups delete_source_groups
  after_source_groups-IsSound db s =
      Same-IsSound _ _ (record { mirrors = refl; sequence = refl; repositories = refl })
        (delete_repositories-IsSound
          (λ r.
            any (λ g. refers r.source_group_id g.id && old_source_group now retention db g)
              db.source_groups)
          db s)

  pub after_pipelines-IsSound : (db : Db) → IsSound db → IsSound (after_pipelines now retention db)
  unfolding after_pipelines delete_pipelines
  after_pipelines-IsSound db s =
      Same-IsSound _ _ (record { mirrors = refl; sequence = refl; repositories = refl })
        (delete_groups-IsSound
          (λ g.
            any (λ q. refers g.pipeline_id q.id && old_pipeline now retention db q) db.pipelines)
          db s)

  -- A cleanup pass keeps the rules.
  pub run_cleanup-IsSound : (db : Db) → IsSound db → IsSound (run_cleanup now retention db).1
  unfolding run_cleanup
  run_cleanup-IsSound db s = after_pipelines-IsSound _ (
      after_source_groups-IsSound _ (
        after_repositories-IsSound _
          (after_groups-IsSound _ (after_mirrors-IsSound _ (after_logs-IsSound db s)))))
