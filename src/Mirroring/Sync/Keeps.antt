-- ===== src/Mirroring/Sync/Keeps.antt =====
-- Triggering a synchronisation keeps the rules of the mirroring tables
-- (backend/app/services/mirror.py).
use big_bug.Prelude.{
  ℕ, String, ◌≡◌, refl, ap, subst, Option, none, some, List, text_keys, number_keys, ◌==◌,
  ok_of_bind, ok_injective, ok,
}
use big_bug.Identity.{ResourceProvider}
use big_bug.Mirroring.{Mirror, SyncGroup, Pipeline, PipelineRun, Db, _get_mirror_or_404}
use big_bug.Mirroring.Mirrors.{status_pending}
use big_bug.Mirroring.Sound.{IsSound, Same, Same-IsSound, change-IsSound}
use big_bug.Mirroring.Runs.{trigger_pipeline, status_in_progress, _get_gitlab_provider_or_404}
use big_bug.Mirroring.Sync.{
  trigger_sync, sync_in, sync_with, run_pipeline, project_of, provider_of, group_of_mirror,
  pipeline_of, add_log,
}

module _ (providers : List ResourceProvider) (create : ResourceProvider → String → Option ℕ)
    (now : ℕ) where
  trigger_pipeline-Same :
      (provider_id : ℕ) (project : String) (db : Db) {run : PipelineRun} {db' : Db}
      → trigger_pipeline providers create now provider_id project db ≡ ok (run, db')
      → Same db db'
  unfolding trigger_pipeline
  trigger_pipeline-Same provider_id project db h =
      let (provider, _, h1) = ok_of_bind (_get_gitlab_provider_or_404 providers provider_id) _ h in
      subst (Same db) (ap (λ r. r.1) (ok_injective h1))
        (record { mirrors = refl; sequence = refl; repositories = refl })

  run_pipeline-IsSound :
      (m : Mirror) (pipeline : Pipeline) (db : Db) {db' : Db}
      → run_pipeline providers create now m pipeline db ≡ ok db'
      → IsSound db
      → IsSound db'
  unfolding run_pipeline
  run_pipeline-IsSound m pipeline db h s =
      let (provider_id, _, h1) = ok_of_bind (provider_of pipeline) _ h in
      let (project, _, h2) = ok_of_bind (project_of m.target_project_id) _ h1 in
      let (r, t, h3) =
        ok_of_bind (trigger_pipeline providers create now provider_id project db) _ h2 in
      let same = trigger_pipeline-Same provider_id project db t in
      let left : Db = add_log m.id (some r.0.id) status_in_progress r.1 in
      subst IsSound (ok_injective h3) (
        change-IsSound left (λ x. x.id == m.id)
          (λ x. record x { status_flag = status_in_progress; status_text = "Running" })
          (record { id = λ x. refl; source = λ x. refl; deleted = λ x. refl; dated = λ x. refl })
          (Same-IsSound db left
            (record {
              mirrors = same.mirrors;
              sequence = same.sequence;
              repositories = same.repositories;
            })
            s))

  sync_with-IsSound :
      (m : Mirror) (o : Option Pipeline) (db : Db) {db' : Db}
      → sync_with providers create now m o db ≡ ok db'
      → IsSound db
      → IsSound db'
  unfolding sync_with
  sync_with-IsSound m none db h s = subst IsSound (ok_injective h) (
      Same-IsSound db (add_log m.id none status_pending db)
        (record { mirrors = refl; sequence = refl; repositories = refl }) s)
  sync_with-IsSound m (some pipeline) db h s = run_pipeline-IsSound m pipeline db h s

  sync_in-IsSound :
      (m : Mirror) (o : Option SyncGroup) (db : Db) {db' : Db}
      → sync_in providers create now m o db ≡ ok db'
      → IsSound db
      → IsSound db'
  unfolding sync_in
  sync_in-IsSound m none db h s = cc
  sync_in-IsSound m (some group) db h s =
      sync_with-IsSound m (pipeline_of db group.pipeline_id) db h s

  pub trigger_sync-IsSound :
      (db : Db) (mirror_id : ℕ) {db' : Db}
      → trigger_sync providers create now db mirror_id ≡ ok db'
      → IsSound db
      → IsSound db'
  unfolding trigger_sync
  trigger_sync-IsSound db mirror_id h s =
      let (m, _, h1) = ok_of_bind (_get_mirror_or_404 db mirror_id) _ h in
      sync_in-IsSound m (group_of_mirror db m.sync_group_id) db h1 s
