-- ===== src/Mirroring/Sound.antt =====
-- The rules that the operations on mirrors keep (backend/app/services/mirror.py,
-- backend/app/services/sync_group.py).
use big_bug.Prelude.{
  ◌≡◌, refl, ◌∙◌, Bool, true, not, ◌||◌, List, ltb, text_keys, number_keys, ◌==◌, is_some, any, all,
  update_where, unique, unique-update_where, all-update_where,
}
use big_bug.Mirroring.{Mirror, SourceRepository, Db, live_repository}

-- A mirror that is not deleted has a source repository that is not deleted.
abbrev pub sourced : List SourceRepository → Mirror → Bool
sourced repositories m = m.is_deleted || any (live_repository m.source_repository_id) repositories

-- Every mirror, deleted or not, refers to a row.
abbrev pub referenced : List SourceRepository → Mirror → Bool
referenced repositories m = any (λ r. r.id == m.source_repository_id) repositories

abbrev pub mirror_undated : Mirror → Bool
mirror_undated m = m.is_deleted || not (is_some m.deleted_at)

abbrev pub repository_undated : SourceRepository → Bool
repository_undated r = r.is_deleted || not (is_some r.deleted_at)

pub record IsSound (db : Db) : Type 0 where
  pub mirror_ids : unique (λ (m : Mirror). m.id) db.mirrors ≡ true
  pub mirror_sequence : all (λ (m : Mirror). ltb m.id db.next_mirror_id) db.mirrors ≡ true
  pub repository_ids : unique (λ (r : SourceRepository). r.id) db.source_repositories ≡ true
  pub references : all (referenced db.source_repositories) db.mirrors ≡ true
  pub live_sources : all (sourced db.source_repositories) db.mirrors ≡ true
  pub mirrors_undated : all mirror_undated db.mirrors ≡ true
  pub repositories_undated : all repository_undated db.source_repositories ≡ true

-- The parts of a mirror that the rules read.
pub record Keeps (f : Mirror → Mirror) : Type 0 where
  pub id : (m : Mirror) → (f m).id ≡ m.id
  pub source : (m : Mirror) → (f m).source_repository_id ≡ m.source_repository_id
  pub deleted : (m : Mirror) → (f m).is_deleted ≡ m.is_deleted
  pub dated : (m : Mirror) → (f m).deleted_at ≡ m.deleted_at

pub change-IsSound :
    (db : Db) (q : Mirror → Bool) (f : Mirror → Mirror)
    → Keeps f
    → IsSound db
    → IsSound (record db { mirrors = update_where q f db.mirrors })
change-IsSound db q f k s = record {
  mirror_ids = unique-update_where (λ (m : Mirror). m.id) q f k.id db.mirrors s.mirror_ids;
  mirror_sequence = all-update_where _ q f db.mirrors (λ m t h. rw (k.id m) h) s.mirror_sequence;
  repository_ids = s.repository_ids;
  references = all-update_where _ q f db.mirrors (λ m t h. rw (k.source m) h) s.references;
  live_sources =
      all-update_where _ q f db.mirrors (λ m t h. rw (k.deleted m, k.source m) h) s.live_sources;
  mirrors_undated =
      all-update_where _ q f db.mirrors (λ m t h. rw (k.deleted m, k.dated m) h) s.mirrors_undated;
  repositories_undated = s.repositories_undated;
}

-- Tables with the same mirrors and repositories.
pub record Same (db db' : Db) : Type 0 where
  pub mirrors : db'.mirrors ≡ db.mirrors
  pub sequence : db'.next_mirror_id ≡ db.next_mirror_id
  pub repositories : db'.source_repositories ≡ db.source_repositories

pub Same-IsSound : (db db' : Db) → Same db db' → IsSound db → IsSound db'
Same-IsSound db db' e s = record {
  mirror_ids = rw e.mirrors s.mirror_ids;
  mirror_sequence = rw (e.mirrors, e.sequence) s.mirror_sequence;
  repository_ids = rw e.repositories s.repository_ids;
  references = rw (e.mirrors, e.repositories) s.references;
  live_sources = rw (e.mirrors, e.repositories) s.live_sources;
  mirrors_undated = rw e.mirrors s.mirrors_undated;
  repositories_undated = rw e.repositories s.repositories_undated;
}

pub Same-refl : (db : Db) → Same db db
Same-refl db = record { mirrors = refl; sequence = refl; repositories = refl }

pub Same-trans : (db db' db'' : Db) → Same db db' → Same db' db'' → Same db db''
Same-trans db db' db'' e f = record {
  mirrors = f.mirrors ∙ e.mirrors;
  sequence = f.sequence ∙ e.sequence;
  repositories = f.repositories ∙ e.repositories;
}
