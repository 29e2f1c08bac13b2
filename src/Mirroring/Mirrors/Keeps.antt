-- ===== src/Mirroring/Mirrors/Keeps.antt =====
-- What creating, changing, deleting and restoring a mirror leaves
-- (backend/app/services/mirror.py).
use big_bug.Prelude.{
  ℕ, ◌+◌, ◌≡◌, refl, sym, ap, ◌∙◌, subst, Bool, true, not, Option, none, some, List, [], ◌∷◌, ◌++◌,
  arith, ltb, leb, text_keys, number_keys, ◌==◌, is_some, length, any, all, select, find,
  all-append, unique-append_one, sequence-fresh, sequence-next, ok_of_bind, guard_passed,
  ok_injective, is_some-find, any_mono, ok,
}
use big_bug.Mirroring.{
  bad_request, or_404, scalar_one_or_none, _get_source_repo_or_404, _get_mirror_or_404, Mirror, Db,
  live_repository,
}
use mathlib.Core.List.{append-nil, append_assoc}
use big_bug.Mirroring.Mirrors.{
  create_mirror, bulk_create_mirrors, update_mirror, MirrorCreate, MirrorBulkCreate, MirrorUpdate,
  group_given, is_duplicate, pending_mirror, bulk_rows, bulk_row, changed_mirror,
}
use big_bug.Mirroring.Sound.{
  IsSound, sourced, mirror_undated, referenced, Same-IsSound, change-IsSound,
}

-- One new mirror of a repository that is there, under the next id.
add_one-IsSound :
    (db : Db) (m : Mirror)
    → m.id ≡ db.next_mirror_id
    → any (live_repository m.source_repository_id) db.source_repositories ≡ true
    → mirror_undated m ≡ true
    → IsSound db
    → IsSound (record db { mirrors = db.mirrors ++ m ∷ []; next_mirror_id = db.next_mirror_id + 1 })
add_one-IsSound db m i src und s = record {
  mirror_ids =
      unique-append_one (λ (m : Mirror). m.id) db.mirrors m s.mirror_ids
        (rw i
          (sequence-fresh (λ (x : Mirror). x.id) db.next_mirror_id db.mirrors s.mirror_sequence));
  mirror_sequence =
      all-append (λ (x : Mirror). ltb x.id (db.next_mirror_id + 1)) db.mirrors (m ∷ [])
      ∙ rw (sequence-next (λ (x : Mirror). x.id) db.next_mirror_id db.mirrors s.mirror_sequence, i)
          (ground arith);
  repository_ids = s.repository_ids;
  references =
      let there =
        any_mono (live_repository m.source_repository_id) (λ r. r.id == m.source_repository_id)
          db.source_repositories (λ r h. ground arith) src in
      all-append (referenced db.source_repositories) db.mirrors (m ∷ [])
      ∙ rw (s.references, there) refl;
  live_sources =
      all-append (sourced db.source_repositories) db.mirrors (m ∷ [])
      ∙ rw (s.live_sources, src) (ground arith);
  mirrors_undated =
      all-append mirror_undated db.mirrors (m ∷ []) ∙ rw (s.mirrors_undated, und) refl;
  repositories_undated = s.repositories_undated;
}

pub or_404_ok : {A : Type 0} (o : Option A) {a : A} → or_404 o ≡ ok a → o ≡ some a
or_404_ok none h = cc
or_404_ok (some x) h = ap some (ok_injective h)

found_any :
    {A : Type 0} (p : A → Bool) (xs : List A) {a : A} → or_404 (find p xs) ≡ ok a → any p xs ≡ true
found_any p xs h = sym (is_some-find p xs) ∙ ap is_some (or_404_ok (find p xs) h)

pub create_mirror-IsSound :
    (db : Db) (payload : MirrorCreate) {m : Mirror} {db' : Db}
    → create_mirror db payload ≡ ok (m, db')
    → IsSound db
    → IsSound db'
unfolding create_mirror _get_source_repo_or_404
create_mirror-IsSound db payload h s =
    let (repo, found, h1) =
      ok_of_bind (_get_source_repo_or_404 db payload.source_repository_id) _ h in
    let (_, _, h2) = ok_of_bind (group_given db payload.sync_group_id) _ h1 in
    let (_, _, h3) =
      ok_of_bind (scalar_one_or_none (select (is_duplicate payload) db.mirrors)) _ h2 in
    subst IsSound (ap (λ r. r.1) (ok_injective h3)) (
      add_one-IsSound db
        (pending_mirror db.next_mirror_id payload.source_repository_id payload.sync_group_id
          payload.target_namespace payload.target_project_name)
        refl (found_any (live_repository payload.source_repository_id) db.source_repositories found)
        refl s)

add_rows-IsSound :
    (db : Db) (payload : MirrorBulkCreate) (ms : List MirrorCreate)
    → all (λ m. any (live_repository m.source_repository_id) db.source_repositories) ms ≡ true
    → IsSound db
    → IsSound (record db {
      mirrors = db.mirrors ++ bulk_rows payload db.next_mirror_id ms;
      next_mirror_id = db.next_mirror_id + length ms;
    })
unfolding bulk_rows bulk_row
add_rows-IsSound db payload [] h s =
    Same-IsSound db _
      (record { mirrors = append-nil db.mirrors; sequence = ground arith; repositories = refl }) s
add_rows-IsSound db payload (m ∷ ms) h s =
    let row : Mirror = bulk_row payload db.next_mirror_id m in
    let one = add_one-IsSound db row refl (ground arith) refl s in
    let rest =
      add_rows-IsSound
        (record db { mirrors = db.mirrors ++ row ∷ []; next_mirror_id = db.next_mirror_id + 1 })
        payload ms (ground arith) one in
    Same-IsSound _ _
      (record {
        mirrors =
            sym (append_assoc db.mirrors (row ∷ []) (bulk_rows payload (db.next_mirror_id + 1) ms));
        sequence = ground arith;
        repositories = refl;
      })
      rest

pub bulk_create_mirrors-IsSound :
    (db : Db) (payload : MirrorBulkCreate) {created : List Mirror} {db' : Db}
    → bulk_create_mirrors db payload ≡ ok (created, db')
    → IsSound db
    → IsSound db'
unfolding bulk_create_mirrors
bulk_create_mirrors-IsSound db payload h s =
    let (_, h1) = guard_passed (not (leb (length payload.mirrors) 0)) bad_request h in
    let (_, h2) = guard_passed (leb (length payload.mirrors) 500) bad_request h1 in
    let (there, h3) =
      guard_passed
        (all (λ m. any (live_repository m.source_repository_id) db.source_repositories)
          payload.mirrors)
        bad_request h2 in
    subst IsSound (ap (λ r. r.1) (ok_injective h3))
      (add_rows-IsSound db payload payload.mirrors there s)

pub update_mirror-IsSound :
    (db : Db) (mirror_id : ℕ) (payload : MirrorUpdate) {db' : Db}
    → update_mirror db mirror_id payload ≡ ok db'
    → IsSound db
    → IsSound db'
unfolding update_mirror changed_mirror
update_mirror-IsSound db mirror_id payload h s =
    let (_, _, h1) = ok_of_bind (_get_mirror_or_404 db mirror_id) _ h in
    let (_, _, h2) = ok_of_bind (group_given db payload.sync_group_id) _ h1 in
    subst IsSound (ok_injective h2) (
      change-IsSound db (λ m. m.id == mirror_id) (changed_mirror payload)
        (record { id = λ m. refl; source = λ m. refl; deleted = λ m. refl; dated = λ m. refl }) s)
