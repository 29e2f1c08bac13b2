-- ===== src/Mirroring/Sync/Tests.antt =====
-- Examples of the theorems on synchronisations and pipeline runs, at small tables.
use big_bug.Prelude.{
  ℕ, String, ◌≡◌, refl, true, false, Option, none, some, List, [], ◌∷◌, ◌++◌, map, text_keys,
  number_keys, ok,
}
use big_bug.Identity.{ResourceProvider, gitlab, git, system, internal, owner}
use big_bug.Mirroring.{
  Mirror, Db, _get_source_repo_or_404, _get_sync_group_or_404, _get_mirror_or_404,
}
use big_bug.Mirroring.Mirrors.{set_mirror, create_mirror, group_given, is_duplicate, pending_mirror}
use big_bug.Mirroring.Sound.{IsSound}
use big_bug.Mirroring.Tests.{tables, group, again, expired_pipeline}
use big_bug.Mirroring.Runs.{
  trigger_pipeline, _get_gitlab_provider_or_404, recorded_run, update_pipeline_status, with_status,
}
use big_bug.Mirroring.Runs.Traced.{IsTraced}
use big_bug.Mirroring.Runs.Steps.{here, next, triggered, reported, Reach-IsTraced}
use big_bug.Mirroring.Sync.{auto_sync, trigger_sync, swallowed}
use big_bug.Mirroring.Sync.First.{create_mirror-auto_sync}

abbrev platforms : List ResourceProvider
platforms =
    record {
      id = 8;
      domain = git;
      subtype = gitlab;
      category = system;
      visibility = owner;
      direction = internal;
      name = "platform";
      base_url = none;
      credential_id = none;
      trust_store_id = none;
      owner_user_id = none;
      team_id = none;
      is_active = true;
      is_default = true;
      is_protected = false;
      verify_ssl = true;
      priority = 0;
      status_flag = 0;
      status_text = none;
      is_deleted = false;
    }
    ∷ []

-- Group 2 with a pipeline that has a provider.
abbrev piped : Db
piped = record tables {
  sync_groups =
      group 1 "default" true ∷ record (group 2 "nightly" false) { pipeline_id = some 5 } ∷ [];
  pipelines =
      record expired_pipeline { provider_id = some 8; is_deleted = false; deleted_at = none } ∷ [];
}

abbrev piped_once : Db
piped_once = record piped {
  mirrors = tables.mirrors ++ pending_mirror 4 7 (some 2) "ns" "new" ∷ [];
  next_mirror_id = 5;
}

piped_made : create_mirror piped again ≡ ok (pending_mirror 4 7 (some 2) "ns" "new", piped_once)
unfolding create_mirror group_given is_duplicate _get_source_repo_or_404 _get_sync_group_or_404
piped_made = refl

piped-IsSound : IsSound piped
piped-IsSound = record {
  mirror_ids = refl;
  mirror_sequence = refl;
  repository_ids = refl;
  references = refl;
  live_sources = refl;
  mirrors_undated = refl;
  repositories_undated = refl;
}

create_mirror-auto_sync_example :
    auto_sync platforms (λ _ _. some 9) 50 (pending_mirror 4 7 (some 2) "ns" "new") piped_once
    ≡ piped_once
create_mirror-auto_sync_example =
    create_mirror-auto_sync platforms (λ _ _. some 9) 50 piped piped_once again
      (pending_mirror 4 7 (some 2) "ns" "new") piped-IsSound refl piped_made

-- With a project, the run is started and recorded.
abbrev with_project : Mirror → Mirror
with_project m = record m { target_project_id = some "12" }

abbrev synced : (ResourceProvider → String → Option ℕ) → Db
synced create =
    swallowed platforms create 50
      (trigger_sync platforms create 50 (set_mirror 1 with_project piped) 1) piped

sync_started : map (λ m. m.status_flag) (synced (λ _ _. some 9)).mirrors ≡ 3 ∷ 4 ∷ 4 ∷ []
unfolding trigger_sync _get_mirror_or_404
sync_started = refl

-- When GitLab refuses, the run has failed, and the mirror is set to running all the same.
sync_refused : map (λ m. m.status_flag) (synced (λ _ _. none)).mirrors ≡ 3 ∷ 4 ∷ 4 ∷ []
unfolding trigger_sync _get_mirror_or_404
sync_refused = refl

run_failed : map (λ r. r.status_flag) (synced (λ _ _. none)).pipeline_runs ≡ 1 ∷ []
unfolding trigger_sync _get_mirror_or_404
run_failed = refl

-- One run is started and succeeds.
abbrev answer : ResourceProvider → String → Option ℕ
answer provider project = some 9

abbrev one_started : Db
one_started = record tables {
  pipeline_runs = recorded_run 1 50 8 "12" (some 9) ∷ [];
  next_run_id = 2;
}

run_started :
    trigger_pipeline platforms answer 50 8 "12" tables
    ≡ ok (recorded_run 1 50 8 "12" (some 9), one_started)
unfolding trigger_pipeline _get_gitlab_provider_or_404
run_started = refl

tables-IsTraced : IsTraced tables
tables-IsTraced = record { run_ids = refl; run_sequence = refl; runs = refl }

Reach-IsTraced_example : IsTraced (update_pipeline_status "success" 60 9 one_started)
Reach-IsTraced_example =
    Reach-IsTraced tables
      (next (next here (triggered platforms answer 50 8 "12" run_started))
        (reported "success" 60 9))
      tables-IsTraced

run_succeeded :
    map {B = ℕ × Option ℕ}
      (λ r. (r.status_flag, r.finished_at))
      (update_pipeline_status "success" 60 9 one_started).pipeline_runs
    ≡ (0, some 60) ∷ []
unfolding update_pipeline_status with_status
run_succeeded = refl

-- A run that GitLab starts again is in progress and keeps its end.
run_again :
    map {B = ℕ × Option ℕ}
      (λ r. (r.status_flag, r.finished_at))
      (update_pipeline_status "running" 70 9
        (update_pipeline_status "success" 60 9 one_started)).pipeline_runs
    ≡ (3, some 60) ∷ []
unfolding update_pipeline_status with_status
run_again = refl

-- A skipped pipeline is over in GitLab; its run has no end.
run_skipped :
    map {B = ℕ × Option ℕ}
      (λ r. (r.status_flag, r.finished_at))
      (update_pipeline_status "skipped" 60 9 one_started).pipeline_runs
    ≡ (2, none) ∷ []
unfolding update_pipeline_status with_status
run_skipped = refl
