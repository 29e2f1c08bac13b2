-- ===== src/Mirroring/Sync/First.antt =====
-- The first synchronisation of a new mirror (the end of `create_mirror` in
-- backend/app/services/mirror.py).
use big_bug.Prelude.{
  ℕ, String, ◌≡◌, refl, subst, inl, inr, true, false, not, Option, none, some, List, [], ◌∷◌, ◌++◌,
  arith, text_keys, number_keys, ◌==◌, is_some, Bool-cases, Option-cases, any, find, unique,
  found_with, sequence-fresh, ok,
}
use big_bug.Identity.{ResourceProvider}
use big_bug.Mirroring.{Mirror, SyncGroup, Pipeline, Db, live_mirror, live_group, _get_mirror_or_404}
use big_bug.Mirroring.Mirrors.{MirrorCreate, create_mirror}
use big_bug.Mirroring.Mirrors.Repeated.{create_mirror_ok, with_created, created}
use big_bug.Mirroring.Sound.{IsSound}
use big_bug.Mirroring.Sync.{
  auto_sync, trigger_sync, sync_in, sync_with, run_pipeline, project_of, provider_of,
  group_of_mirror, pipeline_of, has_pipeline, live_group_of, swallowed,
}

find_last :
    (id : ℕ) (xs : List Mirror) (m : Mirror)
    → any (λ (x : Mirror). x.id == id) xs ≡ false
    → live_mirror id m ≡ true
    → find (live_mirror id) (xs ++ m ∷ []) ≡ some m
find_last id [] m n h = rw h refl
find_last id (x ∷ xs) m n h = ground (arith, find_last id xs m)

module _ (providers : List ResourceProvider) (create : ResourceProvider → String → Option ℕ)
    (now : ℕ) where
  -- A mirror without a project is refused before the request is sent.
  no_project :
      (m : Mirror) (p : Pipeline) (db : Db)
      → m.target_project_id ≡ none
      → swallowed providers create now (run_pipeline providers create now m p db) db ≡ db
  unfolding run_pipeline project_of provider_of
  no_project m p db e = elim (Option-cases p.provider_id) [
    | inl absent ↦ rw absent refl
    | inr (id, there) ↦ rw (there, e) refl
  ]

  with_pipeline :
      (m : Mirror) (o : Option Pipeline) (db : Db)
      → m.target_project_id ≡ none
      → is_some o ≡ true
      → swallowed providers create now (sync_with providers create now m o db) db ≡ db
  unfolding sync_with
  with_pipeline m none db e h = ground arith
  with_pipeline m (some p) db e h = no_project m p db e

  in_live_group :
      (m : Mirror) (group_id : Option ℕ) (db : Db)
      → unique (λ (g : SyncGroup). g.id) db.sync_groups ≡ true
      → m.target_project_id ≡ none
      → has_pipeline providers create now db (live_group_of providers create now db group_id) ≡ true
      → swallowed providers create now
          (sync_in providers create now m (group_of_mirror db group_id) db)
          db
        ≡ db
  unfolding group_of_mirror sync_in
  in_live_group m none db u e h = ground arith
  in_live_group m (some id) db u e h = elim (Option-cases (find (live_group id) db.sync_groups)) [
    | inl absent ↦
        let nope : has_pipeline providers create now db none ≡ true =
          subst (λ o. has_pipeline providers create now db o ≡ true) absent h in
        ground arith
    | inr (g, found) ↦
        let there : has_pipeline providers create now db (some g) ≡ true =
          subst (λ o. has_pipeline providers create now db o ≡ true) found h in
        rw (found_with (λ (x : SyncGroup). x.id) id (λ x. not x.is_deleted) db.sync_groups u found)
          (with_pipeline m (pipeline_of db g.pipeline_id) db e there)
  ]

  new_row :
      (db : Db) (payload : MirrorCreate)
      → IsSound db
      → unique (λ (g : SyncGroup). g.id) db.sync_groups ≡ true
      → auto_sync providers create now (created payload db.next_mirror_id) (with_created payload db)
        ≡ with_created payload db
  unfolding auto_sync trigger_sync _get_mirror_or_404
  new_row db payload s u =
      let left : Db = with_created payload db in
      let m : Mirror = created payload db.next_mirror_id in
      let fresh =
        sequence-fresh (λ (x : Mirror). x.id) db.next_mirror_id db.mirrors s.mirror_sequence in
      let found =
        find_last db.next_mirror_id db.mirrors m fresh
          (ground (arith, (number_keys.agrees db.next_mirror_id db.next_mirror_id).1 refl)) in
      elim (Bool-cases (
        has_pipeline providers create now left
          (live_group_of providers create now left payload.sync_group_id))) [
            | inl there ↦
                rw (there, found) (in_live_group m payload.sync_group_id left u refl there)
            | inr absent ↦ rw absent refl
          ]

  -- In tables whose mirror ids are below the sequence and whose sync group ids are unique, the
  -- synchronisation that the creation of a mirror tries to trigger never takes place, whatever
  -- GitLab would answer: the new mirror has no target project yet.
  pub create_mirror-auto_sync :
      (db db' : Db) (payload : MirrorCreate) (m : Mirror)
      → IsSound db
      → unique (λ (g : SyncGroup). g.id) db.sync_groups ≡ true
      → create_mirror db payload ≡ ok (m, db')
      → auto_sync providers create now m db' ≡ db'
  create_mirror-auto_sync db db' payload m s u h =
      let (_, _, made, same) = create_mirror_ok db payload h in
      subst (λ d. auto_sync providers create now m d ≡ d) made
        (subst
          (λ x.
            auto_sync providers create now x (with_created payload db) ≡ with_created payload db)
          same (new_row db payload s u))
