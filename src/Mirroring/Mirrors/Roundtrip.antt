-- ===== src/Mirroring/Mirrors/Roundtrip.antt =====
-- Restoring a mirror after its deletion (`soft_delete_mirror` and `restore_mirror` in
-- backend/app/services/mirror.py).
use big_bug.Prelude.{
  ℕ, suc, ◌≡◌, refl, sym, ◌∙◌, inl, inr, true, false, not, ◌&&◌, ◌||◌, Option, none, some, List, [],
  ◌∷◌, arith, leb, text_keys, number_keys, ◌==◌, is_some, Bool-cases, Option-cases, length, any,
  all, find, find_sound, find-none, update_where, unique, only_row, found_with, find-update_where,
  all-find, ok,
}
use big_bug.Mirroring.{Mirror, Db, SourceRepository, live_mirror, live_repository}
use big_bug.Mirroring.Mirrors.{
  soft_delete_mirror, restore_mirror, set_mirror, mirror_deleted, mirror_restored,
  repository_deleted, repository_restored, restore_repository,
}
use big_bug.Mirroring.Mirrors.Deleted.{soft_delete_mirror_exact, repositories_after}
use big_bug.Mirroring.Sound.{sourced, IsSound, mirror_undated, repository_undated, sourced}

mirror_back :
    (now : ℕ) (m : Mirror)
    → m.is_deleted ≡ false
    → m.deleted_at ≡ none
    → mirror_restored (mirror_deleted now m) ≡ m
mirror_back now m e d = λ i. record m { is_deleted = sym e i; deleted_at = sym d i }

repository_back :
    (now : ℕ) (r : SourceRepository)
    → r.is_deleted ≡ false
    → r.deleted_at ≡ none
    → repository_restored (repository_deleted now r) ≡ r
repository_back now r e d = λ i. record r { is_deleted = sym e i; deleted_at = sym d i }

no_date : (o : Option ℕ) → is_some o ≡ false → o ≡ none
no_date none h = refl
no_date (some d) h = ground arith

mirrors_back :
    (id now : ℕ) (xs : List Mirror)
    → all (λ (m : Mirror). not (m.id == id) || not m.is_deleted) xs ≡ true
    → all mirror_undated xs ≡ true
    → update_where
        (λ m. m.id == id)
        mirror_restored
        (update_where (λ m. m.id == id) (mirror_deleted now) xs)
      ≡ xs
mirrors_back id now [] l u = refl
mirrors_back id now (m ∷ xs) l u =
    let rest = mirrors_back id now xs (ground arith) (ground arith) in
    elim (Bool-cases (m.id == id)) [
      | inl e ↦
          let back = mirror_back now m (ground arith) (no_date m.deleted_at (ground arith)) in
          rw (e, e, back, rest) refl
      | inr e ↦ rw (e, e, rest) refl
    ]

repositories_back :
    (s now : ℕ) (rs : List SourceRepository)
    → all (λ (r : SourceRepository). not (r.id == s) || not r.is_deleted) rs ≡ true
    → all repository_undated rs ≡ true
    → update_where
        (λ r. r.id == s && r.is_deleted)
        repository_restored
        (update_where (live_repository s) (repository_deleted now) rs)
      ≡ rs
repositories_back s now [] l u = refl
repositories_back s now (r ∷ rs) l u =
    let rest = repositories_back s now rs (ground arith) (ground arith) in
    elim (Bool-cases (r.id == s)) [
      | inl e ↦
          let live : r.is_deleted ≡ false = ground arith in
          let back = repository_back now r live (no_date r.deleted_at (ground arith)) in
          simp (e, live, back, rest)
      | inr e ↦ rw (e, e, rest) refl
    ]

repositories_same :
    (s : ℕ) (rs : List SourceRepository)
    → all (λ (r : SourceRepository). not (r.id == s) || not r.is_deleted) rs ≡ true
    → update_where (λ r. r.id == s && r.is_deleted) repository_restored rs ≡ rs
repositories_same s [] l = refl
repositories_same s (r ∷ rs) l = ground (arith, repositories_same s rs)

find_deleted :
    (id now : ℕ) (xs : List Mirror) {m : Mirror}
    → find (λ (x : Mirror). x.id == id) xs ≡ some m
    → find (λ (x : Mirror). x.id == id) (update_where (λ x. x.id == id) (mirror_deleted now) xs)
      ≡ some (mirror_deleted now m)
find_deleted id now xs h =
    find-update_where (λ (x : Mirror). x.id == id) (λ x. x.id == id) (mirror_deleted now) xs
      (λ x e. refl)
    ∙ rw h (rw (find_sound (λ (x : Mirror). x.id == id) xs h) refl)

restore_deleted :
    (db : Db) (id : ℕ) (m : Mirror)
    → find (λ (x : Mirror). x.id == id) db.mirrors ≡ some m
    → m.is_deleted ≡ true
    → restore_mirror db id
      ≡ ok (restore_repository m.source_repository_id (set_mirror id mirror_restored db))
unfolding restore_mirror
restore_deleted db id m found e = rw (found, e) refl

-- With unique ids, a live row is the only one with its id.
live_repositories :
    (s : ℕ) (rs : List SourceRepository)
    → unique (λ (r : SourceRepository). r.id) rs ≡ true
    → any (live_repository s) rs ≡ true
    → all (λ (r : SourceRepository). not (r.id == s) || not r.is_deleted) rs ≡ true
live_repositories s rs u there = elim (Option-cases (find (live_repository s) rs)) [
  | inl absent ↦ ground (arith, find-none (live_repository s) rs)
  | inr (r, found) ↦
      only_row (λ (r : SourceRepository). r.id) s (λ r. not r.is_deleted) rs u
        (found_with (λ (r : SourceRepository). r.id) s (λ r. not r.is_deleted) rs u found)
        (ground (arith, find_sound (live_repository s) rs found))
]

repositories_after_lem :
    (s now : ℕ) (rest : List Mirror) (rs : List SourceRepository)
    → all (λ (r : SourceRepository). not (r.id == s) || not r.is_deleted) rs ≡ true
    → all repository_undated rs ≡ true
    → update_where
        (λ r. r.id == s && r.is_deleted)
        repository_restored
        (repositories_after s now rest rs)
      ≡ rs
repositories_after_lem s now [] rs l u = repositories_back s now rs l u
repositories_after_lem s now (x ∷ rest) rs l u =
    let more : leb (suc (length rest)) 0 ≡ false = ground arith in
    rw more (repositories_same s rs l)

-- Restoring a live mirror right after its deletion gives back the mirrors and the source
-- repositories as they were, also when the deletion raised and when it took the repository along;
-- in tables whose live mirrors have live repositories and whose ids are unique.
pub soft_delete-restore :
    (db : Db) (mirror_id now : ℕ) (m : Mirror)
    → IsSound db
    → find (live_mirror mirror_id) db.mirrors ≡ some m
    → (db' : Db) × (restore_mirror (soft_delete_mirror db mirror_id now).1 mirror_id ≡ ok db')
      × (db'.mirrors ≡ db.mirrors)
      × (db'.source_repositories ≡ db.source_repositories)
soft_delete-restore db mirror_id now m s found =
    let (outcome, mirrors, repositories) = soft_delete_mirror_exact db mirror_id now m found in
    let by_id =
      found_with (λ (x : Mirror). x.id) mirror_id (λ x. not x.is_deleted) db.mirrors s.mirror_ids
        found in
    let is_live : m.is_deleted ≡ false =
      ground (arith, find_sound (live_mirror mirror_id) db.mirrors found) in
    let source =
      all-find (sourced db.source_repositories) (λ x. x.id == mirror_id) db.mirrors s.live_sources
        by_id in
    let live_rows =
      live_repositories m.source_repository_id db.source_repositories s.repository_ids
        (ground arith) in
    let only =
      only_row (λ (x : Mirror). x.id) mirror_id (λ x. not x.is_deleted) db.mirrors s.mirror_ids
        by_id (ground arith) in
    (
      _,
      restore_deleted (soft_delete_mirror db mirror_id now).1 mirror_id (mirror_deleted now m)
          (rw mirrors (find_deleted mirror_id now db.mirrors by_id)) refl,
      rw mirrors (mirrors_back mirror_id now db.mirrors only s.mirrors_undated),
      rw repositories (
          repositories_after_lem m.source_repository_id now _ db.source_repositories live_rows
            s.repositories_undated),
    )
