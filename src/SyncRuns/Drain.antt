-- ===== src/SyncRuns/Drain.antt =====
-- Retrying every permanently failed run (`retry_all_failed` in backend/app/api/sync_runs.py).
use big_bug.Prelude.{
  ℕ, ◌+◌, String, ◌≡◌, refl, ap, ◌∙◌, inl, inr, Bool, true, false, Option, some, List, [], ◌∷◌,
  ◌++◌, arith, text_keys, number_keys, Bool-cases, length, select,
}
use big_bug.SyncRuns.{
  Settings, Store, SyncRun, Argument, Reachable, enqueue, queued_run, has_status, failed_permanent,
  queued,
}
use big_bug.SyncRuns.Admin.{retry_all_failed, retry_runs, retry_one, _reenqueue, args_of, kwargs_of}

count : (SyncRun → Bool) → List SyncRun → ℕ
count p runs = length (select p runs)

count-append :
    (p : SyncRun → Bool) (xs ys : List SyncRun) → count p (xs ++ ys) ≡ count p xs + count p ys
unfolding count
count-append p [] ys = ground arith
count-append p (x ∷ xs) ys = ground (arith, count-append p xs ys)

module _ (settings : Settings) (known : String → Bool) (accepted : Bool) (now : ℕ) where
  abbrev up : Reachable
  up = record { database = true; broker = accepted }

  abbrev one_if : Bool → ℕ
  one_if true = 1
  one_if false = 0

  -- What one round adds.
  record Round (again : Bool) (before after : ℕ × Store) : Type 0 where
    more : after.0 ≡ before.0 + one_if again
    same_failed :
        count (has_status failed_permanent) after.1.runs
        ≡ count (has_status failed_permanent) before.1.runs
    new_queued :
        count (has_status queued) after.1.runs
        ≡ count (has_status queued) before.1.runs + one_if again

  enqueued_runs :
      (name : String) (args : List Argument) (kwargs : List (String × Argument))
      (entity_type : Option String) (entity_id : Option ℕ) (s : Store)
      → (enqueue settings up now name args kwargs entity_type entity_id s).runs
        ≡ s.runs
          ++ queued_run settings now s.next_run_id name entity_type entity_id
              (record { args = some args; kwargs = some kwargs })
            ∷ []
  unfolding enqueue
  enqueued_runs name args kwargs entity_type entity_id s = elim (Bool-cases accepted) [
    | inl e ↦ rw e refl
    | inr e ↦ rw e refl
  ]

  round_lem :
      (r : SyncRun) (st : ℕ × Store)
      → Round
          (known r.task_name)
          st
          (retry_one settings known (_reenqueue settings known up now r st.1) st)
  unfolding retry_one _reenqueue count
  round_lem r st = elim (Bool-cases (known r.task_name)) [
    | inr e ↦ rw e (record { more = ground arith; same_failed = refl; new_queued = ground arith })
    | inl e ↦
        let runs =
          enqueued_runs r.task_name (args_of r.payload) (kwargs_of r.payload) r.entity_type
            r.entity_id st.1 in
        rw e (record {
          more = ground arith;
          same_failed =
              ap (count (has_status failed_permanent)) runs
              ∙ count-append (has_status failed_permanent) st.1.runs _
              ∙ ground arith;
          new_queued =
              ap (count (has_status queued)) runs
              ∙ count-append (has_status queued) st.1.runs _
              ∙ ground arith;
        })
  ]

  rounds_lem :
      (runs : List SyncRun) (st : ℕ × Store)
      → ((retry_runs settings known up now runs st).0 ≡ st.0 + count (λ r. known r.task_name) runs)
        × (count (has_status failed_permanent) (retry_runs settings known up now runs st).1.runs
            ≡ count (has_status failed_permanent) st.1.runs)
        × (count (has_status queued) (retry_runs settings known up now runs st).1.runs
            ≡ count (has_status queued) st.1.runs + count (λ r. known r.task_name) runs)
  unfolding retry_runs count
  rounds_lem [] st = (ground arith, refl, ground arith)
  rounds_lem (r ∷ runs) st =
      let st' = retry_one settings known (_reenqueue settings known up now r st.1) st in
      let here = round_lem r st in
      let (a, b, c) = rounds_lem runs st' in
      let split : length (select (λ x. known x.task_name) (r ∷ runs))
          ≡ one_if (known r.task_name) + length (select (λ x. known x.task_name) runs) =
        ground arith in
      (grind (arith, split, here.more), b ∙ here.same_failed, grind (arith, split, here.new_queued))

  -- With the database at hand, `retry_all_failed` reports as retried the permanently failed runs
  -- whose tasks are known and as total all permanently failed runs, adds one queued run for each
  -- retried one, and leaves as many permanently failed runs as before.
  pub retry_all_failed_counts :
      (s : Store)
      → ((retry_all_failed settings known up now s).0.retried
          ≡ length (select (λ r. known r.task_name) (select (has_status failed_permanent) s.runs)))
        × ((retry_all_failed settings known up now s).0.total_failed_permanent
            ≡ length (select (has_status failed_permanent) s.runs))
        × (length (select (has_status queued) (retry_all_failed settings known up now s).1.runs)
            ≡ length (select (has_status queued) s.runs)
              + (retry_all_failed settings known up now s).0.retried)
        × (length (
              select
                (has_status failed_permanent)
                (retry_all_failed settings known up now s).1.runs)
            ≡ length (select (has_status failed_permanent) s.runs))
  unfolding retry_all_failed count
  retry_all_failed_counts s =
      let (a, b, c) = rounds_lem (select (has_status failed_permanent) s.runs) (0, s) in
      (grind (arith, a), refl, grind (arith, a, c), b)
