-- ===== src/Mirroring/Mirrors/Repeated.antt =====
-- Repeated creations of one mirror (`create_mirror` in backend/app/services/mirror.py).
use big_bug.Prelude.{
  ℕ, ◌+◌, ◌≡◌, refl, ap, ◌∙◌, subst, true, Option, none, some, List, [], ◌∷◌, ◌++◌, arith,
  text_keys, number_keys, select, ok_of_bind, ok_injective, select-append, ok, err,
}
use mathlib.Core.List.{append_assoc}
use big_bug.Mirroring.{
  Mirror, SourceRepository, Db, multiple_results_found, scalar_one_or_none, _get_source_repo_or_404,
  _get_sync_group_or_404,
}
use big_bug.Mirroring.Mirrors.{
  MirrorCreate, create_mirror, group_given, is_duplicate, pending_mirror, in_named_group,
}

abbrev pub created : MirrorCreate → ℕ → Mirror
created payload id =
    pending_mirror id payload.source_repository_id payload.sync_group_id payload.target_namespace
      payload.target_project_name

abbrev pub with_created : MirrorCreate → Db → Db
with_created payload db = record db {
  mirrors = db.mirrors ++ created payload db.next_mirror_id ∷ [];
  next_mirror_id = db.next_mirror_id + 1;
}

named_again :
    (group : Option ℕ) (m : Mirror) → m.sync_group_id ≡ group → in_named_group group m ≡ true
named_again none m e = refl
named_again (some id) m e = rw e ((number_keys.agrees id id).1 refl)

-- A mirror that the call creates counts as a duplicate for the next call.
created_duplicate :
    (payload : MirrorCreate) (id : ℕ) → is_duplicate payload (created payload id) ≡ true
unfolding is_duplicate
created_duplicate payload id = ground (
  arith,
  named_again payload.sync_group_id (created payload id) refl,
  (number_keys.agrees payload.source_repository_id payload.source_repository_id).1 refl,
  (text_keys.agrees payload.target_namespace payload.target_namespace).1 refl,
  (text_keys.agrees payload.target_project_name payload.target_project_name).1 refl,
)

-- What a successful creation found and made.
pub create_mirror_ok :
    (db : Db) (payload : MirrorCreate) {m : Mirror} {db' : Db}
    → create_mirror db payload ≡ ok (m, db')
    → ((r : SourceRepository) × (_get_source_repo_or_404 db payload.source_repository_id ≡ ok r))
      × (group_given db payload.sync_group_id ≡ ok tt)
      × (with_created payload db ≡ db')
      × (created payload db.next_mirror_id ≡ m)
unfolding create_mirror
create_mirror_ok db payload h =
    let (r, found, h1) = ok_of_bind (_get_source_repo_or_404 db payload.source_repository_id) _ h in
    let (u, given, h2) = ok_of_bind (group_given db payload.sync_group_id) _ h1 in
    let (_, _, h3) =
      ok_of_bind (scalar_one_or_none (select (is_duplicate payload) db.mirrors)) _ h2 in
    ((r, found), given, ap (λ r. r.1) (ok_injective h3), ap (λ r. r.0) (ok_injective h3))

two_at_end :
    (xs : List Mirror) (a b : Mirror)
    → scalar_one_or_none (xs ++ a ∷ b ∷ []) ≡ err multiple_results_found
two_at_end [] a b = refl
two_at_end (x ∷ []) a b = refl
two_at_end (x ∷ y ∷ xs) a b = refl

with_two :
    (payload : MirrorCreate) (db : Db)
    → scalar_one_or_none
        (select (is_duplicate payload) (with_created payload (with_created payload db)).mirrors)
      ≡ err multiple_results_found
with_two payload db =
    let one = created payload db.next_mirror_id in
    let two = created payload (db.next_mirror_id + 1) in
    rw (append_assoc db.mirrors (one ∷ []) (two ∷ [])) (
      rw (select-append (is_duplicate payload) db.mirrors (one ∷ two ∷ [])) (
        rw (created_duplicate payload db.next_mirror_id)
          (rw (created_duplicate payload (db.next_mirror_id + 1)) (two_at_end _ one two))))

group_given_again :
    (db : Db) (payload : MirrorCreate) (o : Option ℕ)
    → group_given (with_created payload db) o ≡ group_given db o
unfolding group_given _get_sync_group_or_404
group_given_again db payload none = refl
group_given_again db payload (some id) = refl

third_raises :
    (db : Db) (payload : MirrorCreate) (r : SourceRepository)
    → _get_source_repo_or_404 db payload.source_repository_id ≡ ok r
    → group_given db payload.sync_group_id ≡ ok tt
    → create_mirror (with_created payload (with_created payload db)) payload
      ≡ err multiple_results_found
unfolding create_mirror _get_source_repo_or_404
third_raises db payload r found given = rw found (
    rw
      (group_given_again (with_created payload db) payload payload.sync_group_id
        ∙ group_given_again db payload payload.sync_group_id
        ∙ given)
      (rw (with_two payload db) refl))

-- A mirror may be created twice with the same repository, group and target, since duplicates only
-- cause a warning; after that a third creation raises `MultipleResultsFound`.
pub create_mirror_thrice :
    (db db' db'' : Db) (payload : MirrorCreate) (m m' : Mirror)
    → create_mirror db payload ≡ ok (m, db')
    → create_mirror db' payload ≡ ok (m', db'')
    → create_mirror db'' payload ≡ err multiple_results_found
create_mirror_thrice db db' db'' payload m m' h h' =
    let ((r, found), given, made, _) = create_mirror_ok db payload h in
    let (_, _, made', _) = create_mirror_ok db' payload h' in
    let both : with_created payload (with_created payload db) ≡ db'' =
      ap (with_created payload) made ∙ made' in
    subst (λ d. create_mirror d payload ≡ err multiple_results_found) both
      (third_raises db payload r found given)
