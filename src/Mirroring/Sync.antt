-- ===== src/Mirroring/Sync.antt =====
-- Triggering a synchronisation (`trigger_sync`, and the end of `create_mirror`, in
-- backend/app/services/mirror.py). The last arguments are those of `trigger_pipeline`.
use Prim.Native.Char.{code}
pub mod First
pub mod Keeps
mod Tests
use big_bug.Prelude.{
  ℕ, ◌+◌, String, Bool, true, false, not, ◌&&◌, Option, none, some, List, [], ◌∷◌, ◌++◌, leb,
  if◌then◌else◌, text_keys, number_keys, ◌==◌, is_some, find, Result, guard, ◌>>=◌, ◌>>◌, ok, err,
}
use big_bug.Identity.{ResourceProvider}
use big_bug.Mirroring.{
  Mirror, PipelineRun, SyncGroup, Pipeline, Db, MirroringError, domain, bad_request, or_404,
  _get_mirror_or_404, live_group,
}
use big_bug.Mirroring.Runs.{trigger_pipeline, status_in_progress}
use big_bug.Mirroring.Mirrors.{set_mirror, status_pending}

-- `text.isdigit()`, for the decimal digits.
abbrev pub is_digit : ℕ → Bool
is_digit c = leb b'0' c && leb c b'9'

unfoldable pub all_digits : String → Bool
all_digits String.[] = true
all_digits (String.◌∷◌ c text) = is_digit (code c) && all_digits text

-- `target_project_id and target_project_id.isdigit()`
unfoldable pub project_of : Option String → Result MirroringError String
unfolding all_digits
project_of none = err bad_request
project_of (some text) = do guard (not (text == "") && all_digits text) bad_request; ok text

-- `mirror.sync_group` and `sync_group.pipeline`, whether deleted or not.
unfoldable pub group_of_mirror : Db → Option ℕ → Option SyncGroup
group_of_mirror db none = none
group_of_mirror db (some id) = find (λ g. g.id == id) db.sync_groups

unfoldable pub pipeline_of : Db → Option ℕ → Option Pipeline
pipeline_of db none = none
pipeline_of db (some id) = find (λ p. p.id == id) db.pipelines

abbrev pub add_log : ℕ → Option ℕ → ℕ → Db → Db
add_log mirror_id run_id status db = record db {
  mirror_logs =
      db.mirror_logs
      ++ record {
        id = db.next_log_id;
        mirror_id = mirror_id;
        pipeline_run_id = run_id;
        status_flag = status;
      }
        ∷ [];
  next_log_id = db.next_log_id + 1;
}

unfoldable pub provider_of : Pipeline → Result MirroringError ℕ
provider_of p = elim p.provider_id [ none ↦ err bad_request | some id ↦ ok id ]

module _ (providers : List ResourceProvider) (create : ResourceProvider → String → Option ℕ)
    (now : ℕ) where
  unfoldable pub run_pipeline : Mirror → Pipeline → Db → Result MirroringError Db
  unfolding provider_of project_of trigger_pipeline
  run_pipeline m pipeline db = do
    provider_id ← provider_of pipeline
    project ← project_of m.target_project_id
    (run, left) ← trigger_pipeline providers create now provider_id project db
    ok (
        set_mirror m.id
          (λ x. record x { status_flag = status_in_progress; status_text = "Running" })
          (add_log m.id (some run.id) status_in_progress left))

  unfoldable pub sync_with : Mirror → Option Pipeline → Db → Result MirroringError Db
  unfolding run_pipeline
  sync_with m none db = ok (add_log m.id none status_pending db)
  sync_with m (some pipeline) db = run_pipeline m pipeline db

  unfoldable pub sync_in : Mirror → Option SyncGroup → Db → Result MirroringError Db
  unfolding sync_with pipeline_of
  sync_in m none db = err bad_request
  sync_in m (some group) db = sync_with m (pipeline_of db group.pipeline_id) db

  unfoldable pub trigger_sync : Db → ℕ → Result MirroringError Db
  unfolding _get_mirror_or_404 sync_in group_of_mirror
  trigger_sync db mirror_id = do
    mirror ← _get_mirror_or_404 db mirror_id
    sync_in mirror (group_of_mirror db mirror.sync_group_id) db

  -- What is raised is logged.
  abbrev pub swallowed : Result MirroringError Db → Db → Db
  swallowed (err why) db = db
  swallowed (ok left) db = left

  abbrev pub has_pipeline : Db → Option SyncGroup → Bool
  has_pipeline db none = false
  has_pipeline db (some group) = is_some (pipeline_of db group.pipeline_id)

  abbrev pub live_group_of : Db → Option ℕ → Option SyncGroup
  live_group_of db none = none
  live_group_of db (some id) = find (live_group id) db.sync_groups

  -- The attempt at a first synchronisation at the end of `create_mirror`.
  unfoldable pub auto_sync : Mirror → Db → Db
  unfolding trigger_sync pipeline_of
  auto_sync m db =
      if has_pipeline db (live_group_of db m.sync_group_id)
      then swallowed (trigger_sync db m.id) db
      else db
