-- ===== src/Mirroring/Cleanup/Safe.antt =====
-- What a cleanup pass never deletes (backend/app/services/cleanup.py).
use big_bug.Prelude.{
  ℕ, ◌≡◌, refl, ◌∙◌, Bool, true, false, not, ◌&&◌, ◌||◌, List, [], ◌∷◌, Memᴰ, arith, text_keys,
  number_keys, ◌==◌, any, all, select, mem-any, all_mem, select-delete_where,
}
use big_bug.Mirroring.{Mirror, SourceRepository, SyncGroup, Pipeline, SourceGroup, Db, refers}
use big_bug.Mirroring.Cleanup.{
  delete_mirrors, delete_groups, delete_repositories, after_logs, after_mirrors, after_groups,
  after_repositories, old_group, old_repository, expired_mirror,
}

-- A parent that goes has no child with `c`: the children that go with it have no `c`.
pub childless {ℓ κ} :
    {A : Type ℓ} {B : Type κ} (child : A → B → Bool) (c : A → Bool) (old : B → Bool) (xs : List A)
    (parents : List B)
    → ((b : B) → old b ≡ true → any (λ a. child a b && c a) xs ≡ false)
    → all (λ a. not (any (λ b. child a b && old b) parents) || not (c a)) xs ≡ true
childless child c old xs parents h = all_mem _ xs (λ a m. go a m parents)
  where
    go :
        (a : _)
        → Memᴰ a xs
        → (ps : List _) → (not (any (λ b. child a b && old b) ps) || not (c a)) ≡ true
    go a m [] = refl
    go a m (b ∷ ps) = ground (arith, h b, mem-any (λ a. child a b && c a) xs m, go a m ps)

-- Every row with `q` has no `c`.
pub never {ℓ} :
    {A : Type ℓ} (q c : A → Bool) (xs : List A)
    → ((x : A) → q x ≡ true → c x ≡ false)
    → all (λ x. not (q x) || not (c x)) xs ≡ true
never q c [] h = refl
never q c (x ∷ xs) h = ground (arith, h x, never q c xs h)

none_with {ℓ} :
    {A : Type ℓ} (p q : A → Bool) (xs : List A)
    → ((x : A) → p x ≡ true → q x ≡ true)
    → any q xs ≡ false
    → any p xs ≡ false
none_with p q [] imp h = refl
none_with p q (x ∷ xs) imp h = ground (arith, imp x, none_with p q xs imp)

-- A live mirror that is in no deleted group.
abbrev pub stays : List SyncGroup → Mirror → Bool
stays groups m =
    not m.is_deleted && not (any (λ g. refers m.sync_group_id g.id && g.is_deleted) groups)

-- The rows that are not deleted are the same.
pub record Kept (groups : List SyncGroup) (db db' : Db) : Type 0 where
  pub mirrors : select (stays groups) db'.mirrors ≡ select (stays groups) db.mirrors
  pub sync_groups :
      select (λ (g : SyncGroup). not g.is_deleted) db'.sync_groups
      ≡ select (λ (g : SyncGroup). not g.is_deleted) db.sync_groups
  pub source_repositories :
      select (λ (r : SourceRepository). not r.is_deleted) db'.source_repositories
      ≡ select (λ (r : SourceRepository). not r.is_deleted) db.source_repositories
  pub source_groups :
      select (λ (g : SourceGroup). not g.is_deleted) db'.source_groups
      ≡ select (λ (g : SourceGroup). not g.is_deleted) db.source_groups
  pub pipelines :
      select (λ (p : Pipeline). not p.is_deleted) db'.pipelines
      ≡ select (λ (p : Pipeline). not p.is_deleted) db.pipelines

pub Kept-trans :
    (groups : List SyncGroup) (a b c : Db) → Kept groups a b → Kept groups b c → Kept groups a c
Kept-trans groups a b c k l = record {
  mirrors = l.mirrors ∙ k.mirrors;
  sync_groups = l.sync_groups ∙ k.sync_groups;
  source_repositories = l.source_repositories ∙ k.source_repositories;
  source_groups = l.source_groups ∙ k.source_groups;
  pipelines = l.pipelines ∙ k.pipelines;
}

module _ (now retention : ℕ) (groups : List SyncGroup) where
  pub after_logs-Kept : (db : Db) → Kept groups db (after_logs now retention db)
  unfolding after_logs
  after_logs-Kept db = record {
    mirrors = refl;
    sync_groups = refl;
    source_repositories = refl;
    source_groups = refl;
    pipelines = refl;
  }

  pub after_mirrors-Kept : (db : Db) → Kept groups db (after_mirrors now retention db)
  unfolding after_mirrors delete_mirrors
  after_mirrors-Kept db = record {
    mirrors =
        select-delete_where (stays groups) (expired_mirror now retention) db.mirrors
          (never _ _ db.mirrors (λ m h. ground arith));
    sync_groups = refl;
    source_repositories = refl;
    source_groups = refl;
    pipelines = refl;
  }

  pub after_groups-Kept : (db : Db) → Kept groups db (after_groups now retention db)
  unfolding after_groups delete_groups delete_mirrors old_group
  after_groups-Kept db = record {
    mirrors = select-delete_where (stays groups) _ db.mirrors (
        childless (λ m g. refers m.sync_group_id g.id) (stays groups) (old_group now retention db)
          db.mirrors db.sync_groups
          (λ g old.
            none_with _ (λ m. refers m.sync_group_id g.id && not m.is_deleted) db.mirrors
              (λ m h. ground arith) (ground arith)));
    sync_groups =
        select-delete_where _ (old_group now retention db) db.sync_groups
          (never _ _ db.sync_groups (λ g h. ground arith));
    source_repositories = refl;
    source_groups = refl;
    pipelines = refl;
  }

  pub after_repositories-Kept : (db : Db) → Kept groups db (after_repositories now retention db)
  unfolding after_repositories delete_repositories delete_mirrors old_repository
  after_repositories-Kept db = record {
    mirrors = select-delete_where (stays groups) _ db.mirrors (
        childless (λ m r. r.id == m.source_repository_id) (stays groups)
          (old_repository now retention db) db.mirrors db.source_repositories
          (λ r old.
            none_with _ (λ m. m.source_repository_id == r.id && not m.is_deleted) db.mirrors
              (λ m h. ground (
                arith,
                number_keys.agrees r.id m.source_repository_id,
                number_keys.agrees m.source_repository_id r.id,
              ))
              (ground arith)));
    sync_groups = refl;
    source_repositories =
        select-delete_where _ (old_repository now retention db) db.source_repositories
          (never _ _ db.source_repositories (λ r h. ground arith));
    source_groups = refl;
    pipelines = refl;
  }
