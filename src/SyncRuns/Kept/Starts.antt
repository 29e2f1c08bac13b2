-- ===== src/SyncRuns/Kept/Starts.antt =====
-- Enqueueing and starting a run keep the store of tracked runs in shape
-- (backend/app/tasks/enqueue.py, `_claim_or_create_run` in backend/app/tasks/run_tracking.py).
use big_bug.Prelude.{
  ℕ, ◌+◌, ◌≤◌, String, ◌≡◌, refl, ap, subst, inl, inr, Bool, true, false, ◌&&◌, ◌||◌, Option, none,
  some, List, [], ◌∷◌, ◌++◌, arith, ltb, text_keys, number_keys, ◌==◌, Bool-cases, Option-cases,
  any, all, find, any-append, find_sound, update_where, unique, mem-all,
}
use big_bug.SyncRuns.{
  Settings, Store, SyncRun, queued, running, superseded, has_status, enqueue, Reachable, Argument,
  Message, publish, write_queued,
}
use big_bug.SyncRuns.Tracking.{
  Tracked, tracked, Task, started, claimed, fresh_run, is_row, adopt, still_queued, retryable,
  reuse_or_create, claim_or,
}
use big_bug.SyncRuns.Kept.{IsTracked, row_fits, holds, held, appended-IsTracked}
use big_bug.SyncRuns.Kept.Waiting.{find_mem, any_mem_false, joined-IsTracked, start-IsTracked}

publish-IsTracked :
    (accepted : Bool) (message : Message) (live : List Tracked) (s : Store)
    → IsTracked live s
    → IsTracked live (publish accepted message s)
publish-IsTracked false message live s k = k
publish-IsTracked true message live s k = record {
  rows = k.rows;
  ids_unique = k.ids_unique;
  ids_drawn = k.ids_drawn;
  live_unique = k.live_unique;
  live_held = k.live_held;
}

write_queued-IsTracked :
    (accepted : Bool) (r : SyncRun) (live : List Tracked) (s : Store)
    → r.id ≡ s.next_run_id
    → row_fits r ≡ true
    → IsTracked live s
    → IsTracked live (write_queued accepted r s)
write_queued-IsTracked false r live s fresh fit k = k
write_queued-IsTracked true r live s fresh fit k = appended-IsTracked live s r fresh fit k

pub enqueue-IsTracked :
    (settings : Settings) (up : Reachable) (now : ℕ) (name : String) (args : List Argument)
    (kwargs : List (String × Argument)) (entity_type : Option String) (entity_id : Option ℕ)
    (live : List Tracked) (s : Store)
    → 1 ≤ settings.task_max_retries
    → IsTracked live s
    → IsTracked live (enqueue settings up now name args kwargs entity_type entity_id s)
unfolding enqueue
enqueue-IsTracked settings up now name args kwargs entity_type entity_id live s budget k =
    publish-IsTracked up.broker _ live _
      (write_queued-IsTracked up.database _ live s refl (ground arith) k)

undrawn_lem :
    (s : Store) (r : SyncRun) (t : Tracked)
    → r.id ≡ s.next_run_id
    → all (λ (x : SyncRun). ltb x.id s.next_run_id) s.runs ≡ true
    → held s.runs t ≡ true
    → (t.run_id == r.id) ≡ false
undrawn_lem s r t fresh drawn h = elim (Bool-cases (t.run_id == r.id)) [
  | inr e ↦ e
  | inl e ↦
      let none_there = any_mem_false (holds t) s.runs (λ x m.
        let below = mem-all (λ (x : SyncRun). ltb x.id s.next_run_id) s.runs m drawn in
        ground arith) in
      ground (arith, none_there)
]

queued_idle :
    (r : SyncRun)
    → has_status queued r ≡ true
    → (has_status superseded r || has_status running r) ≡ false
queued_idle r h = ground arith

retryable_idle :
    (task : Task) (r : SyncRun)
    → retryable task r ≡ true
    → (has_status superseded r || has_status running r) ≡ false
retryable_idle task r h = ground arith

queued_fits :
    (task : Task) (now : ℕ) (r : SyncRun)
    → has_status queued r ≡ true
    → row_fits r ≡ true
    → row_fits (claimed task now r) ≡ true
queued_fits task now r h fit = ground arith

retryable_fits :
    (task : Task) (now : ℕ) (r : SyncRun)
    → retryable task r ≡ true
    → row_fits r ≡ true
    → row_fits (started now r) ≡ true
retryable_fits task now r h fit = ground arith

-- A row that is created running.
create-IsTracked :
    (live : List Tracked) (s : Store) (r : SyncRun)
    → r.id ≡ s.next_run_id
    → row_fits r ≡ true
    → has_status running r ≡ true
    → IsTracked live s
    → IsTracked
        (live ++ tracked r ∷ [])
        (record s { runs = s.runs ++ r ∷ []; next_run_id = s.next_run_id + 1 })
create-IsTracked live s r fresh fit runs k =
    let bigger : Store = record s { runs = s.runs ++ r ∷ []; next_run_id = s.next_run_id + 1 } in
    joined-IsTracked live bigger (tracked r) (appended-IsTracked live s r fresh fit k)
      (any_mem_false (λ (x : Tracked). x.run_id == r.id) live
        (λ t m. undrawn_lem s r t fresh k.ids_drawn (mem-all (held s.runs) live m k.live_held)))
      (ground (arith, any-append (holds (tracked r)) s.runs (r ∷ [])))

-- The failed row that a worker has read is still as it was read.
unfoldable pub Unchanged : Task → Option SyncRun → Store → Type 0
Unchanged task none s = Unit {0}
Unchanged task (some r) s = (retryable task r ≡ true) × (find (λ x. x.id == r.id) s.runs ≡ some r)

update_absent :
    (id : ℕ) (f : SyncRun → SyncRun) (runs : List SyncRun)
    → any (λ x. x.id == id) runs ≡ false
    → update_where (is_row id) f runs ≡ runs
update_absent id f [] h = refl
update_absent id f (x ∷ runs) h = ground (arith, update_absent id f runs)

-- A change of the only row of an id is a change of the row that is found.
update_found :
    (id : ℕ) (f : SyncRun → SyncRun) (runs : List SyncRun) {r : SyncRun}
    → unique (λ (x : SyncRun). x.id) runs ≡ true
    → find (λ x. x.id == id) runs ≡ some r
    → update_where (is_row id) f runs ≡ update_where (is_row id) (λ _. f r) runs
update_found id f [] u h = refl
update_found id f (x ∷ runs) {r} u h = elim (Bool-cases (x.id == id)) [
  | inl hit ↦
      let rest : any (λ y. y.id == id) runs ≡ false =
        subst (λ k. any (λ y. y.id == k) runs ≡ false) ((number_keys.agrees x.id id).0 hit)
          (ground arith) in
      let same : x ≡ r = ground arith in
      rw (hit, update_absent id f runs rest, update_absent id (λ _. f r) runs rest)
        (ap (λ y. f y ∷ runs) same)
  | inr miss ↦
      rw miss (ap (λ rows. x ∷ rows) (update_found id f runs (ground arith) (ground arith)))
]

reuse-IsTracked :
    (settings : Settings) (task : Task) (now : ℕ) (read : Option SyncRun) (live : List Tracked)
    (s : Store)
    → 1 ≤ settings.task_max_retries
    → Unchanged task read s
    → IsTracked live s
    → IsTracked
        (live ++ tracked (reuse_or_create settings task now read s).0 ∷ [])
        (reuse_or_create settings task now read s).1
unfolding reuse_or_create Unchanged
reuse-IsTracked settings task now none live s budget same k =
    create-IsTracked live s (fresh_run settings task now s.next_run_id) refl (ground arith) refl k
reuse-IsTracked settings task now (some r) live s budget (ready, there) k =
    let m = find_mem (λ x. x.id == r.id) s.runs there in
    let fit = mem-all row_fits s.runs m k.rows in
    rw (update_found r.id _ s.runs k.ids_unique there) (
      start-IsTracked live s r (started now r) k m (retryable_idle task r ready) refl
        (retryable_fits task now r ready fit) refl)

-- Starting a run, whatever queued row the worker had selected, and with a failed row that did not
-- change since the worker read it.
pub adopt-IsTracked :
    (settings : Settings) (task : Task) (now : ℕ) (selected : Option ℕ) (read : Option SyncRun)
    (live : List Tracked) (s : Store)
    → 1 ≤ settings.task_max_retries
    → Unchanged task read s
    → IsTracked live s
    → IsTracked
        (live ++ tracked (adopt settings task now selected read s).0 ∷ [])
        (adopt settings task now selected read s).1
unfolding adopt claim_or
adopt-IsTracked settings task now none read live s budget same k =
    reuse-IsTracked settings task now read live s budget same k
adopt-IsTracked settings task now (some id) read live s budget same k =
    elim (Option-cases (still_queued id s)) [
      | inl e ↦ rw e (reuse-IsTracked settings task now read live s budget same k)
      | inr (r, e) ↦
          let m = find_mem (λ x. x.id == id && has_status queued x) s.runs e in
          let ready = find_sound (λ x. x.id == id && has_status queued x) s.runs e in
          let fit = mem-all row_fits s.runs m k.rows in
          rw e (
            start-IsTracked live s r (claimed task now r) k m (queued_idle r (ground arith)) refl
              (queued_fits task now r (ground arith) fit) refl)
    ]
