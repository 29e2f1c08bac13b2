-- ===== src/Mirroring/Tests.antt =====
-- Examples of the theorems on mirroring, at small tables.
use big_bug.Prelude.{
  ℕ, String, ◌≡◌, refl, Bool, true, false, none, some, [], ◌∷◌, ◌++◌, arith, leb, if◌then◌else◌,
  text_keys, number_keys, ◌==◌, length, any, find, update_where, ok, err,
}
use big_bug.Mirroring.{
  Mirror, MirrorLog, SyncGroup, Pipeline, Db, multiple_results_found, live_mirror,
  _get_source_repo_or_404, _get_sync_group_or_404,
}
use big_bug.Mirroring.Groups.{delete_sync_group, get_default_group}
use big_bug.Mirroring.Mirrors.{
  MirrorCreate, create_mirror, group_given, is_duplicate, soft_delete_mirror, restore_mirror,
  pending_mirror, mirror_deleted,
}
use big_bug.Mirroring.Mirrors.Deleted.{soft_delete_mirror_exact, siblings, repositories_after}
use big_bug.Mirroring.Mirrors.Repeated.{create_mirror_thrice}
use big_bug.Mirroring.Mirrors.Roundtrip.{soft_delete-restore}
use big_bug.Mirroring.Sound.{IsSound}
use big_bug.Mirroring.Steps.{
  here, next, mirror_deleted as deleted_step, group_deleted, cleaned, Reach-IsSound,
}
use big_bug.Mirroring.Cleanup.{run_cleanup}
use big_bug.Mirroring.Cleanup.Safe.{Kept}
use big_bug.Mirroring.Cleanup.Live.{run_cleanup-Kept}
use big_bug.Mirroring.Cleanup.Gone.{soft_delete-cleanup}
use big_bug.Mirroring.Assignment.{delete_group, run, abstract, assignment, default_id}
use big_bug.Mirroring.Assignment.Refines.{run_refines}

abbrev pub group : ℕ → String → Bool → SyncGroup
group id name is_default = record {
  id = id;
  name = name;
  description = none;
  pipeline_id = none;
  is_default = is_default;
  sync_cron = none;
  sync_enabled = true;
  sync_concurrency = 5;
  freshness_cron = none;
  freshness_enabled = true;
  freshness_concurrency = 5;
  is_deleted = false;
  deleted_at = none;
}

abbrev log : ℕ → ℕ → MirrorLog
log id mirror_id = record {
  id = id;
  mirror_id = mirror_id;
  pipeline_run_id = none;
  status_flag = 4;
}

-- Three mirrors of one repository, two of them in group 2; group 1 is the default group.
abbrev pub tables : Db
tables = record {
  mirrors =
      pending_mirror 1 7 (some 2) "ns" "a"
      ∷ pending_mirror 2 7 (some 2) "ns" "b"
      ∷ pending_mirror 3 7 (some 1) "ns" "c"
      ∷ [];
  mirror_logs = log 1 1 ∷ log 2 3 ∷ [];
  sync_groups = group 1 "default" true ∷ group 2 "nightly" false ∷ [];
  source_repositories =
      record {
        id = 7;
        source_group_id = none;
        full_name = "org/repo";
        is_deleted = false;
        deleted_at = none;
      }
      ∷ [];
  source_groups = [];
  pipelines = [];
  pipeline_runs = [];
  next_mirror_id = 4;
  next_group_id = 3;
  next_pipeline_id = 1;
  next_log_id = 3;
  next_run_id = 1;
}

tables-IsSound : IsSound tables
tables-IsSound = record {
  mirror_ids = refl;
  mirror_sequence = refl;
  repository_ids = refl;
  references = refl;
  live_sources = refl;
  mirrors_undated = refl;
  repositories_undated = refl;
}

abbrev first_mirror : Mirror
first_mirror = pending_mirror 1 7 (some 2) "ns" "a"

two_remain : (soft_delete_mirror tables 1 50).0 ≡ err multiple_results_found
unfolding soft_delete_mirror
two_remain = refl

deleted_though : (find (live_mirror 1) (soft_delete_mirror tables 1 50).1.mirrors) ≡ none
unfolding soft_delete_mirror
deleted_though = refl

Reach-IsSound_example :
    IsSound (run_cleanup 100 30 (delete_sync_group (soft_delete_mirror tables 1 50).1 2 60).1).1
Reach-IsSound_example =
    Reach-IsSound tables
      (next (next (next here (deleted_step 1 50)) (group_deleted 2 60)) (cleaned 100 30))
      tables-IsSound

soft_delete_mirror_exact_example :
    ((soft_delete_mirror tables 1 50).0 ≡ (
      if leb (length (siblings 7 1 tables.mirrors)) 1 then ok tt else err multiple_results_found))
    × ((soft_delete_mirror tables 1 50).1.mirrors
        ≡ update_where (λ x. x.id == 1) (mirror_deleted 50) tables.mirrors)
    × ((soft_delete_mirror tables 1 50).1.source_repositories
        ≡ repositories_after 7 50 (siblings 7 1 tables.mirrors) tables.source_repositories)
soft_delete_mirror_exact_example = soft_delete_mirror_exact tables 1 50 first_mirror refl

soft_delete-restore_example :
    (db' : Db) × (restore_mirror (soft_delete_mirror tables 1 50).1 1 ≡ ok db')
    × (db'.mirrors ≡ tables.mirrors)
    × (db'.source_repositories ≡ tables.source_repositories)
soft_delete-restore_example = soft_delete-restore tables 1 50 first_mirror tables-IsSound refl

soft_delete-cleanup_example :
    (any
        (λ (x : Mirror). x.id == 1)
        (run_cleanup 100 30 (soft_delete_mirror tables 1 50).1).1.mirrors
      ≡ false)
    × (any
          (λ (l : MirrorLog). l.mirror_id == 1)
          (run_cleanup 100 30 (soft_delete_mirror tables 1 50).1).1.mirror_logs
        ≡ false)
soft_delete-cleanup_example =
    soft_delete-cleanup tables 1 50 100 30 first_mirror refl (ground arith)

-- One of the mirrors and an empty group were deleted long ago.
abbrev partly_expired : Db
partly_expired = record tables {
  mirrors =
      record (pending_mirror 1 7 (some 2) "ns" "a") { is_deleted = true; deleted_at = some 20 }
      ∷ pending_mirror 2 7 (some 2) "ns" "b"
      ∷ [];
  sync_groups =
      group 1 "default" true
      ∷ group 2 "nightly" false
      ∷ record (group 3 "old" false) { is_deleted = true; deleted_at = some 10 }
      ∷ [];
}

partly_expired-IsSound : IsSound partly_expired
partly_expired-IsSound = record {
  mirror_ids = refl;
  mirror_sequence = refl;
  repository_ids = refl;
  references = refl;
  live_sources = refl;
  mirrors_undated = refl;
  repositories_undated = refl;
}

expired_rows_gone : (run_cleanup 100 30 partly_expired).1 ≡ record partly_expired {
  mirrors = pending_mirror 2 7 (some 2) "ns" "b" ∷ [];
  mirror_logs = log 2 3 ∷ [];
  sync_groups = group 1 "default" true ∷ group 2 "nightly" false ∷ [];
}
unfolding run_cleanup
expired_rows_gone = refl

run_cleanup-Kept_example :
    Kept partly_expired.sync_groups partly_expired (run_cleanup 100 30 partly_expired).1
run_cleanup-Kept_example = run_cleanup-Kept 100 30 partly_expired partly_expired-IsSound

abbrev without_nightly : Db
without_nightly = (delete_sync_group tables 2 60).1

nightly_deleted : run (delete_group 2 60) tables ≡ (ok tt, without_nightly)
unfolding run delete_sync_group get_default_group
nightly_deleted = refl

run_refines_example :
    assignment without_nightly 1
    ≡ abstract (delete_group 2 60) (default_id tables) (assignment tables) 1
run_refines_example = run_refines (delete_group 2 60) tables without_nightly nightly_deleted 1

-- A mirror restored into a deleted group is live, and lost when the pipeline of the group expires.
abbrev pub expired_pipeline : Pipeline
expired_pipeline = record {
  id = 5;
  name = "old";
  description = none;
  provider_id = none;
  is_default = false;
  is_enabled = true;
  is_deleted = true;
  deleted_at = some 20;
}

abbrev restored_into_deleted : Db
restored_into_deleted = record tables {
  mirrors = first_mirror ∷ [];
  sync_groups =
      record (group 2 "nightly" false) {
        pipeline_id = some 5;
        is_deleted = true;
        deleted_at = some 10;
      }
      ∷ [];
  pipelines = expired_pipeline ∷ [];
}

live_mirror_lost : (run_cleanup 100 30 restored_into_deleted).1.mirrors ≡ []
unfolding run_cleanup
live_mirror_lost = refl

abbrev pub again : MirrorCreate
again = record {
  source_repository_id = 7;
  sync_group_id = some 2;
  target_namespace = "ns";
  target_project_name = "new";
}

abbrev once : Db
once = record tables {
  mirrors = tables.mirrors ++ pending_mirror 4 7 (some 2) "ns" "new" ∷ [];
  next_mirror_id = 5;
}

abbrev twice : Db
twice = record once {
  mirrors = once.mirrors ++ pending_mirror 5 7 (some 2) "ns" "new" ∷ [];
  next_mirror_id = 6;
}

made_once : create_mirror tables again ≡ ok (pending_mirror 4 7 (some 2) "ns" "new", once)
unfolding create_mirror group_given is_duplicate _get_source_repo_or_404 _get_sync_group_or_404
made_once = refl

made_twice : create_mirror once again ≡ ok (pending_mirror 5 7 (some 2) "ns" "new", twice)
unfolding create_mirror group_given is_duplicate _get_source_repo_or_404 _get_sync_group_or_404
made_twice = refl

create_mirror_thrice_example : create_mirror twice again ≡ err multiple_results_found
create_mirror_thrice_example =
    create_mirror_thrice tables once twice again (pending_mirror 4 7 (some 2) "ns" "new")
      (pending_mirror 5 7 (some 2) "ns" "new") made_once made_twice
