-- ===== src/SyncRuns/Claims.antt =====
-- Which row a starting worker gets (backend/app/tasks/run_tracking.py, backend/app/tasks/enqueue.py).
use big_bug.Prelude.{
  ℕ, ◌≤◌, String, ◌≡◌, refl, ap, ◌∙◌, ◌≢◌, inl, inr, Bool, true, false, ◌&&◌, Option, some, List,
  [], ◌∷◌, ◌++◌, arith, ltb, text_keys, number_keys, ◌==◌, Bool-cases, any, all, find, any-append,
  first, unique,
}
use big_bug.SyncRuns.{
  queued, has_status, Settings, Store, SyncRun, Argument, enqueue, queued_run, newest,
}
use big_bug.SyncRuns.Tracking.{
  Tracked, tracked, Task, adopt, claim_or, _claim_or_create_run, id_of, select_queued, awaits,
  claimed, still_queued,
}
use big_bug.SyncRuns.Kept.{IsTracked}
use big_bug.SyncRuns.Kept.Starts.{Unchanged, adopt-IsTracked}

last_unique :
    (live : List Tracked) (t : Tracked)
    → unique (λ (x : Tracked). x.run_id) (live ++ t ∷ []) ≡ true
    → any (λ x. x.run_id == t.run_id) live ≡ false
last_unique [] t h = refl
last_unique (x ∷ live) t h =
    ground
      (arith, any-append (λ (y : Tracked). y.run_id == x.run_id) live (t ∷ []), last_unique live t)

-- When a task may be attempted at least once and the store is in shape, two workers that start one
-- after the other get different runs, whatever queued rows they had selected before, the same one
-- included, provided that each finds the failed row that it has read, if any, as it has read it.
pub adopt-adopt_distinct :
    (settings : Settings) (first second : Task) (now later_on : ℕ) (selected other : Option ℕ)
    (read reread : Option SyncRun) (live : List Tracked) (s : Store)
    → 1 ≤ settings.task_max_retries
    → Unchanged first read s
    → Unchanged second reread (adopt settings first now selected read s).1
    → IsTracked live s
    → (adopt settings first now selected read s).0.id
      ≢ (adopt settings second later_on other reread
          (adopt settings first now selected read s).1).0.id
adopt-adopt_distinct settings first second now later_on selected other read reread live s budget e
      e' k same =
    let one = adopt settings first now selected read s in
    let two = adopt settings second later_on other reread one.1 in
    let k1 = adopt-IsTracked settings first now selected read live s budget e k in
    let k2 =
      adopt-IsTracked settings second later_on other reread (live ++ tracked one.0 ∷ []) one.1
        budget e' k1 in
    let absent = last_unique (live ++ tracked one.0 ∷ []) (tracked two.0) k2.live_unique in
    ground
      (arith, absent, any-append (λ (t : Tracked). t.run_id == two.0.id) live (tracked one.0 ∷ []))

newest_appended :
    (p : SyncRun → Bool) (bound : ℕ) (runs : List SyncRun) (r : SyncRun)
    → r.id ≡ bound
    → p r ≡ true
    → all (λ x. ltb x.id bound) runs ≡ true
    → newest p (runs ++ r ∷ []) ≡ some r
newest_appended p bound [] r e h drawn = ground arith
newest_appended p bound (x ∷ runs) r e h drawn =
    let rest = newest_appended p bound runs r e h (ground arith) in
    rw rest (elim (Bool-cases (p x)) [ inl hit ↦ ground arith | inr miss ↦ ground arith ])

find_appended :
    (p : SyncRun → Bool) (runs : List SyncRun) (r : SyncRun)
    → any p runs ≡ false
    → p r ≡ true
    → find p (runs ++ r ∷ []) ≡ some r
find_appended p [] r h e = ground arith
find_appended p (x ∷ runs) r h e = ground (arith, find_appended p runs r)

undrawn_id :
    (bound : ℕ) (runs : List SyncRun)
    → all (λ r. ltb r.id bound) runs ≡ true
    → any (λ r. r.id == bound && has_status queued r) runs ≡ false
undrawn_id bound [] h = refl
undrawn_id bound (r ∷ runs) h = ground (arith, undrawn_id bound runs)

-- The claim, in a store whose last row is the newest.
claim_last :
    (settings : Settings) (task : Task) (start : ℕ) (runs : List SyncRun) (r : SyncRun) (s : Store)
    → s.runs ≡ runs ++ r ∷ []
    → all (λ x. ltb x.id r.id) runs ≡ true
    → awaits task r ≡ true
    → (_claim_or_create_run settings task start s).0 ≡ claimed task start r
unfolding _claim_or_create_run id_of select_queued adopt claim_or
claim_last settings task start runs r s e drawn ready =
    let chosen : newest (awaits task) s.runs ≡ some r =
      ap (newest (awaits task)) e ∙ newest_appended (awaits task) r.id runs r refl ready drawn in
    let kept : still_queued r.id s ≡ some r =
      ap (find (λ x. x.id == r.id && has_status queued x)) e
      ∙ find_appended (λ x. x.id == r.id && has_status queued x) runs r (undrawn_id r.id runs drawn)
          (ground arith) in
    rw chosen (rw kept refl)

same_name : (name : String) → (name == name) ≡ true
same_name name = (text_keys.agrees name name).1 refl

-- The row that `enqueue` wrote with a database at hand is the one that the next worker of that task
-- name gets, in a store in shape: it is the first attempt, with the arguments that were enqueued,
-- and it takes the entity of the worker, whatever entity it was enqueued for.
pub enqueue-claim_or_create_run :
    (settings : Settings) (accepted : Bool) (now start : ℕ) (args : List Argument)
    (kwargs : List (String × Argument)) (entity_type : Option String) (entity_id : Option ℕ)
    (task : Task) (live : List Tracked) (s : Store)
    → IsTracked live s
    → (_claim_or_create_run settings task start (
        enqueue settings
          (record { database = true; broker = accepted })
          now
          task.name
          args
          kwargs
          entity_type
          entity_id
          s)).0
      ≡ claimed task start (
          queued_run settings now s.next_run_id task.name entity_type entity_id
            (record { args = some args; kwargs = some kwargs }))
unfolding enqueue
enqueue-claim_or_create_run settings true now start args kwargs entity_type entity_id task live s
      k =
    claim_last settings task start s.runs
      (queued_run settings now s.next_run_id task.name entity_type entity_id
        (record { args = some args; kwargs = some kwargs }))
      _ refl k.ids_drawn (ground (arith, same_name task.name))
enqueue-claim_or_create_run settings false now start args kwargs entity_type entity_id task live s
      k =
    claim_last settings task start s.runs
      (queued_run settings now s.next_run_id task.name entity_type entity_id
        (record { args = some args; kwargs = some kwargs }))
      _ refl k.ids_drawn (ground (arith, same_name task.name))
