-- ===== src/Mirroring/Mirrors/Restored.antt =====
-- Soft deletion and restoring of mirrors keep the rules (`soft_delete_mirror` and `restore_mirror`
-- in backend/app/services/mirror.py).
use big_bug.Prelude.{
  ℕ, ◌≡◌, refl, sym, ap, ◌∙◌, subst, inl, inr, Bool, true, false, not, ◌&&◌, ◌||◌, some, List, [],
  ◌∷◌, arith, text_keys, number_keys, ◌==◌, Bool-cases, Option-cases, any, all, find, all_mono,
  update_where, only_row, unique-update_where, ok_of_bind, ok_injective, all-update_where, ok,
}
use big_bug.Mirroring.{
  Mirror, Db, SourceRepository, Call, live_mirror, live_repository, _get_mirror_or_404, or_404,
}
use big_bug.Mirroring.Mirrors.Keeps.{or_404_ok}
use big_bug.Mirroring.Mirrors.{
  soft_delete_mirror, set_mirror, mirror_deleted, mirror_restored, cascade, repository_deleted,
  repository_restored, restore_mirror, restore_repository,
}
use big_bug.Mirroring.Mirrors.Deleted.{siblings, cascaded, soft_delete_mirror-found}
use big_bug.Mirroring.Sound.{IsSound, sourced, referenced}

other_kept :
    (k s now : ℕ) (rs : List SourceRepository)
    → (k == s) ≡ false
    → any (live_repository k) (update_where (live_repository s) (repository_deleted now) rs)
      ≡ any (live_repository k) rs
other_kept k s now [] ne = refl
other_kept k s now (r ∷ rs) ne = ground (arith, other_kept k s now rs)

sources_lem :
    (rs : List SourceRepository) (s id now : ℕ) (xs : List Mirror)
    → siblings s id xs ≡ []
    → all (sourced rs) xs ≡ true
    → all
        (sourced (update_where (live_repository s) (repository_deleted now) rs))
        (update_where (λ m. m.id == id) (mirror_deleted now) xs)
      ≡ true
unfolding siblings
sources_lem rs s id now [] h a = refl
sources_lem rs s id now (m ∷ xs) h a =
    ground (arith, sources_lem rs s id now xs, other_kept m.source_repository_id s now rs)

-- Marking mirrors as deleted.
deleted-IsSound :
    (db : Db) (id now : ℕ) → IsSound db → IsSound (set_mirror id (mirror_deleted now) db)
deleted-IsSound db id now s = record {
  mirror_ids =
      unique-update_where (λ (m : Mirror). m.id) (λ m. m.id == id) (mirror_deleted now) (λ m. refl)
        db.mirrors s.mirror_ids;
  mirror_sequence =
      all-update_where _ (λ m. m.id == id) (mirror_deleted now) db.mirrors (λ m t h. h)
        s.mirror_sequence;
  repository_ids = s.repository_ids;
  references =
      all-update_where _ (λ m. m.id == id) (mirror_deleted now) db.mirrors (λ m t h. h)
        s.references;
  live_sources =
      all-update_where _ (λ m. m.id == id) (mirror_deleted now) db.mirrors (λ m t h. refl)
        s.live_sources;
  mirrors_undated =
      all-update_where _ (λ m. m.id == id) (mirror_deleted now) db.mirrors (λ m t h. refl)
        s.mirrors_undated;
  repositories_undated = s.repositories_undated;
}

pub references_kept :
    (q : SourceRepository → Bool) (f : SourceRepository → SourceRepository)
    (rs : List SourceRepository) (m : Mirror)
    → ((r : SourceRepository) → (f r).id ≡ r.id)
    → referenced (update_where q f rs) m ≡ referenced rs m
references_kept q f [] m same = refl
references_kept q f (r ∷ rs) m same = elim (Bool-cases (q r)) [
  | inl e ↦ rw e (
      rw (same r) (ap (λ b. (r.id == m.source_repository_id) || b) (references_kept q f rs m same)))
  | inr e ↦ rw e (ap (λ b. (r.id == m.source_repository_id) || b) (references_kept q f rs m same))
]

cascaded-IsSound :
    (db : Db) (s id now : ℕ) (rest : List Mirror)
    → siblings s id db.mirrors ≡ rest
    → IsSound db
    → IsSound (cascaded s now rest (set_mirror id (mirror_deleted now) db)).1
unfolding cascaded cascade
cascaded-IsSound db s id now [] e sound =
    let d = deleted-IsSound db id now sound in
    record {
      mirror_ids = d.mirror_ids;
      mirror_sequence = d.mirror_sequence;
      repository_ids =
          unique-update_where (λ (r : SourceRepository). r.id) (live_repository s)
            (repository_deleted now) (λ r. refl) db.source_repositories sound.repository_ids;
      references =
          all_mono _ _ _
            (λ m h.
              references_kept (live_repository s) (repository_deleted now) db.source_repositories m
                (λ r. refl)
              ∙ h)
            d.references;
      live_sources = sources_lem db.source_repositories s id now db.mirrors e sound.live_sources;
      mirrors_undated = d.mirrors_undated;
      repositories_undated =
          all-update_where _ (live_repository s) (repository_deleted now) db.source_repositories
            (λ r t h. refl) sound.repositories_undated;
    }
cascaded-IsSound db s id now (x ∷ []) e sound = deleted-IsSound db id now sound
cascaded-IsSound db s id now (x ∷ y ∷ rest) e sound = deleted-IsSound db id now sound

-- Whether it succeeds or raises, the deletion of a mirror keeps the rules.
pub soft_delete_mirror-IsSound :
    (db : Db) (mirror_id now : ℕ) → IsSound db → IsSound (soft_delete_mirror db mirror_id now).1
unfolding soft_delete_mirror _get_mirror_or_404
soft_delete_mirror-IsSound db mirror_id now s =
    elim (Option-cases (find (live_mirror mirror_id) db.mirrors)) [
      | inl absent ↦ rw absent s
      | inr (m, found) ↦
          subst (λ (c : Call (Unit {0})). IsSound c.1)
            (sym (soft_delete_mirror-found db mirror_id now found))
            (cascaded-IsSound db m.source_repository_id mirror_id now _ refl s)
    ]

restored : ℕ → List SourceRepository → List SourceRepository
restored s = update_where (λ r. r.id == s && r.is_deleted) repository_restored

live_kept :
    (k s : ℕ) (rs : List SourceRepository)
    → any (live_repository k) rs ≡ true
    → any (live_repository k) (restored s rs) ≡ true
unfolding restored
live_kept k s [] h = h
live_kept k s (r ∷ rs) h = ground (arith, live_kept k s rs)

now_live :
    (s : ℕ) (rs : List SourceRepository)
    → any (λ (r : SourceRepository). r.id == s) rs ≡ true
    → any (live_repository s) (restored s rs) ≡ true
unfolding restored
now_live s [] h = h
now_live s (r ∷ rs) h = ground (arith, now_live s rs)

restored_sources :
    (rs : List SourceRepository) (s id : ℕ) (xs : List Mirror)
    → all (λ (m : Mirror). not (m.id == id) || m.source_repository_id == s) xs ≡ true
    → all (referenced rs) xs ≡ true
    → all (sourced rs) xs ≡ true
    → all (sourced (restored s rs)) (update_where (λ m. m.id == id) mirror_restored xs) ≡ true
restored_sources rs s id [] u h a = refl
restored_sources rs s id (m ∷ xs) u h a = elim (Bool-cases (m.id == id)) [
  | inl e ↦
      let k : m.source_repository_id ≡ s =
        (number_keys.agrees m.source_repository_id s).0 (ground arith) in
      let there : any (λ (r : SourceRepository). r.id == s) rs ≡ true =
        subst (λ k. any (λ (r : SourceRepository). r.id == k) rs ≡ true) k (ground arith) in
      rw e (rw k (ground (arith, now_live s rs, restored_sources rs s id xs)))
  | inr e ↦
      rw e (ground (arith, live_kept m.source_repository_id s rs, restored_sources rs s id xs))
]

restored-IsSound :
    (db : Db) (id : ℕ) (m : Mirror)
    → find (λ x. x.id == id) db.mirrors ≡ some m
    → IsSound db
    → IsSound (restore_repository m.source_repository_id (set_mirror id mirror_restored db))
unfolding restored
restored-IsSound db id m found s =
    let only =
      only_row (λ (x : Mirror). x.id) id (λ x. x.source_repository_id == m.source_repository_id)
        db.mirrors s.mirror_ids found
        ((number_keys.agrees m.source_repository_id m.source_repository_id).1 refl) in
    record {
      mirror_ids =
          unique-update_where (λ (x : Mirror). x.id) (λ x. x.id == id) mirror_restored (λ x. refl)
            db.mirrors s.mirror_ids;
      mirror_sequence =
          all-update_where _ (λ x. x.id == id) mirror_restored db.mirrors (λ x t h. h)
            s.mirror_sequence;
      repository_ids =
          unique-update_where (λ (r : SourceRepository). r.id)
            (λ r. r.id == m.source_repository_id && r.is_deleted) repository_restored (λ r. refl)
            db.source_repositories s.repository_ids;
      references =
          all_mono _ _ _
            (λ x h.
              references_kept (λ r. r.id == m.source_repository_id && r.is_deleted)
                repository_restored db.source_repositories x (λ r. refl)
              ∙ h)
            (all-update_where _ (λ x. x.id == id) mirror_restored db.mirrors (λ x t h. h)
              s.references);
      live_sources =
          restored_sources db.source_repositories m.source_repository_id id db.mirrors only
            s.references s.live_sources;
      mirrors_undated =
          all-update_where _ (λ x. x.id == id) mirror_restored db.mirrors (λ x t h. refl)
            s.mirrors_undated;
      repositories_undated =
          all-update_where _ (λ r. r.id == m.source_repository_id && r.is_deleted)
            repository_restored db.source_repositories (λ r t h. refl) s.repositories_undated;
    }

pub restore_mirror-IsSound :
    (db : Db) (mirror_id : ℕ) {db' : Db}
    → restore_mirror db mirror_id ≡ ok db'
    → IsSound db
    → IsSound db'
unfolding restore_mirror
restore_mirror-IsSound db mirror_id h s =
    let (m, found, h1) = ok_of_bind (or_404 (find (λ x. x.id == mirror_id) db.mirrors)) _ h in
    subst IsSound (ok_injective h1) (elim (Bool-cases m.is_deleted) [
      | inl e ↦ rw e (
          restored-IsSound db mirror_id m
            (or_404_ok (find (λ x. x.id == mirror_id) db.mirrors) found) s)
      | inr e ↦ rw e s
    ])
