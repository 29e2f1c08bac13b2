-- ===== src/Kernel/Tests.antt =====
-- A registry of tags and a table of synchronised ones as lists, and a pass that crashes.
use big_bug.Prelude.{
  ℕ, ◌+◌, String, ◌≡◌, refl, ap, ◌⊎◌, inl, inr, true, List, [], ◌∷◌, Memᴰ, arith, if◌then◌else◌,
  text_keys, number_keys, ◌==◌, Bool-cases, contains,
}
use big_bug.Kernel.{
  Chaos, Failpoint, World, _failpoint_hit, counted, respecified, bump, count_of, passed,
  _crash_point, idempotent_push, commit_cursor, and_commit, push_then_commit, sync_image,
}
use big_bug.Kernel.Passes.{Items, IsUpsert, sync_items, sync_passes, go_on}
use big_bug.Kernel.Converges.{Alike, Recorded, Settled, sync_items_converge}

abbrev insert : ℕ → List ℕ → List ℕ
insert k xs = if contains xs k then xs else k ∷ xs

-- Of the database, the tags that are recorded and the number of log rows.
abbrev Table : Type 0
Table = List ℕ × ℕ

abbrev tags : Items ℕ (List ℕ) Table
tags = record {
  begin = λ k d. (d.0, d.1 + 1);
  push = λ k x. (true, insert k x);
  apply = λ k d. (true, (insert k d.0, d.1));
  finish = λ k d. d;
}

same_key : (n : ℕ) → (n == n) ≡ true
same_key n = ground arith

insert_done : (k : ℕ) (xs : List ℕ) → contains (insert k xs) k ≡ true
insert_done k xs = ground (arith, same_key k)

insert_kept : (k j : ℕ) (xs : List ℕ) → contains xs k ≡ true → contains (insert j xs) k ≡ true
insert_kept k j xs h = ground arith

insert_again : (k : ℕ) (xs : List ℕ) → contains xs k ≡ true → insert k xs ≡ xs
insert_again k xs h = rw h refl

insert_own :
    (k j : ℕ) (xs : List ℕ) → contains (insert j xs) k ≡ true → (contains xs k ≡ true) ⊎ (k ≡ j)
insert_own k j xs h = elim (Bool-cases (contains xs j)) [
  | inl there ↦ inl (ground arith)
  | inr absent ↦ elim (Bool-cases (contains xs k)) [
    | inl found ↦ inl found
    | inr missing ↦ inr (ground arith)
  ]
]

tags-IsUpsert : IsUpsert tags (λ d. d.0)
tags-IsUpsert = record {
  is_pushed = λ k x. contains x k ≡ true;
  is_applied = λ k d. contains d k ≡ true;
  begins = λ k d. refl;
  finishes = λ k d. refl;
  pushes = insert_done;
  pushes_kept = insert_kept;
  push_again = insert_again;
  applies = λ k d. insert_done k d.0;
  applies_kept = λ k j d. insert_kept k j d.0;
  applies_own = λ k j d. insert_own k j d.0;
  apply_again = λ k d. insert_again k d.0;
  apply_view = λ k d d' e. ap (insert k) e;
}

abbrev reading : String → Failpoint
reading spec =
    if spec == "push:after#2"
    then record { target = "push:after"; nth = 2 }
    else record { target = spec; nth = 1 }

abbrev crashing : Chaos
crashing = record {
  spec = "push:after#2";
  read_spec = reading;
  hits = record { active_spec = ""; counts = [] };
}

abbrev calm : Chaos
calm = record crashing { spec = "" }

abbrev nothing : World (List ℕ) Table
nothing = record { external = []; committed = ([], 0) }

nothing-Recorded : Recorded tags (λ d. d.0) tags-IsUpsert nothing
unfolding tags-IsUpsert
nothing-Recorded k h = h

-- The second item is pushed and not recorded, and has its log row.
crashed_between :
    sync_items tags (5 ∷ 6 ∷ 7 ∷ []) crashing nothing
    ≡ record { external = 6 ∷ 5 ∷ []; committed = (5 ∷ [], 2) }
unfolding sync_items go_on sync_image push_then_commit and_commit idempotent_push commit_cursor
    _crash_point passed _failpoint_hit counted respecified bump count_of
crashed_between = refl

sync_items_converge_example :
    Recorded tags
      (λ d. d.0)
      tags-IsUpsert
      (sync_passes tags (5 ∷ 6 ∷ 7 ∷ []) (crashing ∷ crashing ∷ []) nothing)
    × Alike
        (λ (d : Table). d.0)
        (sync_items tags
          (5 ∷ 6 ∷ 7 ∷ [])
          calm
          (sync_passes tags (5 ∷ 6 ∷ 7 ∷ []) (crashing ∷ crashing ∷ []) nothing))
        (sync_items tags (5 ∷ 6 ∷ 7 ∷ []) calm nothing)
    × ((k : ℕ)
        → Memᴰ k (5 ∷ 6 ∷ 7 ∷ [])
        → Settled tags (λ d. d.0) tags-IsUpsert k (sync_items tags (5 ∷ 6 ∷ 7 ∷ []) calm nothing))
sync_items_converge_example =
    sync_items_converge tags (λ d. d.0) tags-IsUpsert (5 ∷ 6 ∷ 7 ∷ []) (crashing ∷ crashing ∷ [])
      calm nothing refl nothing-Recorded
