-- ===== src/SyncRuns/Kept/Ends.antt =====
-- Pulses, outcomes and lost workers keep the store of tracked runs in shape
-- (`_heartbeat_loop` and `track_sync_run` in backend/app/tasks/run_tracking.py).
use big_bug.Prelude.{
  ℕ, String, ◌≡◌, refl, ◌∙◌, inl, inr, Bool, true, false, not, ◌&&◌, ◌||◌, some, List, [], ◌∷◌,
  Memᴰ, arith, ltb, if◌then◌else◌, text_keys, number_keys, ◌==◌, Bool-cases, all, all-select,
  all_mono, update_where, unique, unique-select, any-unique, any-update_where, mem-all, any_mono,
  all_over_update, unique-update_where,
}
use big_bug.SyncRuns.{Store, SyncRun, running, succeeded, superseded, has_status}
use big_bug.SyncRuns.Tracking.{
  Tracked, live_row, pulse, record_success, record_failure, final_status,
}
use big_bug.SyncRuns.Steps.{leaves}
use big_bug.SyncRuns.Kept.{IsTracked, row_fits, holds, held}

all_update_mem :
    (p q : SyncRun → Bool) (f : SyncRun → SyncRun) (runs : List SyncRun)
    → ((x : SyncRun) → Memᴰ x runs → q x ≡ true → p x ≡ true → p (f x) ≡ true)
    → all p runs ≡ true
    → all p (update_where q f runs) ≡ true
all_update_mem p q f [] imp h = refl
all_update_mem p q f (x ∷ runs) imp h =
    ground (arith, imp x (Memᴰ.head refl), all_update_mem p q f runs (λ y m. imp y (Memᴰ.tail m)))

module _ (q : SyncRun → Bool) (f : SyncRun → SyncRun)
    (same_ids : (x : SyncRun) → (f x).id ≡ x.id) where
  -- A change of rows that fits, beside wrappers that keep theirs.
  changed-IsTracked :
      (live live' : List Tracked) (s : Store)
      → ((x : SyncRun) → Memᴰ x s.runs → q x ≡ true → row_fits x ≡ true → row_fits (f x) ≡ true)
      → unique (λ (t : Tracked). t.run_id) live' ≡ true
      → all (λ t. held (update_where q f s.runs) t) live' ≡ true
      → IsTracked live s
      → IsTracked live' (record s { runs = update_where q f s.runs })
  changed-IsTracked live live' s fits one h k = record {
    rows = all_update_mem row_fits q f s.runs fits k.rows;
    ids_unique = unique-update_where (λ (r : SyncRun). r.id) q f same_ids s.runs k.ids_unique;
    ids_drawn =
        all_over_update (λ (x : SyncRun). ltb x.id s.next_run_id) (λ x. ltb x.id s.next_run_id) q f
          s.runs (λ x below. ground (arith, same_ids x)) k.ids_drawn;
    live_unique = one;
    live_held = h;
  }

pub pulse-IsTracked :
    (now run_id : ℕ) (live : List Tracked) (s : Store)
    → IsTracked live s
    → IsTracked live (pulse now run_id s)
unfolding pulse
pulse-IsTracked now run_id live s k =
    let f : SyncRun → SyncRun = λ r. record r { heartbeat_at = some now } in
    let q = live_row run_id in
    changed-IsTracked q f (λ x. refl) live live s (λ x m runs fit. ground arith) k.live_unique
      (all_mono (held s.runs) (held (update_where q f s.runs)) live
        (λ t h.
          any-update_where (holds t) q f s.runs
          ∙ any_mono (holds t) (λ x. if q x then holds t (f x) else holds t x) s.runs
              (λ x e. ground arith) h)
        k.live_held)
      k

-- The wrappers that stay are of other rows.
stay-held :
    (t : Tracked) (f : SyncRun → SyncRun) (live : List Tracked) (runs : List SyncRun)
    → all (held runs) live ≡ true
    → all (held (update_where (live_row t.run_id) f runs)) (leaves t live) ≡ true
stay-held t f [] runs h = refl
stay-held t f (x ∷ live) runs h =
    let q = live_row t.run_id in
    let kept = λ (ne : (x.run_id == t.run_id) ≡ false) (old : held runs x ≡ true).
      any-update_where (holds x) q f runs
      ∙ any_mono (holds x) (λ y. if q y then holds x (f y) else holds x y) runs
          (λ y e. ground arith) old in
    elim (Bool-cases (x.run_id == t.run_id)) [
      | inl e ↦ ground (arith, stay-held t f live runs)
      | inr e ↦ ground (arith, kept e, stay-held t f live runs)
    ]

ended-IsTracked :
    (t : Tracked) (f : SyncRun → SyncRun) (live : List Tracked) (s : Store)
    → ((x : SyncRun) → (f x).id ≡ x.id)
    → ((x : SyncRun)
        → Memᴰ x s.runs
        → live_row t.run_id x ≡ true
        → row_fits x ≡ true
        → row_fits (f x) ≡ true)
    → IsTracked live s
    → IsTracked (leaves t live) (record s { runs = update_where (live_row t.run_id) f s.runs })
ended-IsTracked t f live s same fits k =
    changed-IsTracked (live_row t.run_id) f same live (leaves t live) s fits
      (unique-select (λ (x : Tracked). x.run_id) (λ x. not (x.run_id == t.run_id)) live
        k.live_unique)
      (stay-held t f live s.runs k.live_held) k

pub success-IsTracked :
    (now : ℕ) (t : Tracked) (live : List Tracked) (s : Store)
    → IsTracked live s
    → IsTracked (leaves t live) (record_success now t s)
unfolding record_success
success-IsTracked now t live s k =
    ended-IsTracked t (λ r. record r { status = succeeded; finished_at = some now }) live s
      (λ x. refl) (λ x m runs fit. ground arith) k

-- A row that still runs has the attempts that its wrapper read.
read_attempts :
    (t : Tracked) (live : List Tracked) (s : Store) (x : SyncRun)
    → IsTracked live s
    → Memᴰ t live
    → Memᴰ x s.runs
    → live_row t.run_id x ≡ true
    → (x.attempts ≡ t.attempts) × (x.max_attempts ≡ t.max_attempts)
read_attempts t live s x k tm m runs =
    let mine : SyncRun → Bool = λ y.
      has_status superseded y
      || has_status running y && (y.attempts == t.attempts && y.max_attempts == t.max_attempts) in
    let one = any-unique (λ (y : SyncRun). y.id) mine s.runs k.ids_unique m in
    let there =
      any_mono (holds t) (λ y. mine y && y.id == x.id) s.runs (λ y h. ground arith)
        (mem-all (held s.runs) live tm k.live_held) in
    ground (arith, one, there)

pub failure-IsTracked :
    (now : ℕ) (error : String) (t : Tracked) (live : List Tracked) (s : Store)
    → Memᴰ t live
    → IsTracked live s
    → IsTracked (leaves t live) (record_failure now error t s)
unfolding record_failure final_status
failure-IsTracked now error t live s tm k =
    ended-IsTracked t
      (λ r. record r { status = final_status t; error = some error; finished_at = some now }) live s
      (λ x. refl)
      (λ x m runs fit. let read = read_attempts t live s x k tm m runs in ground (arith, read)) k

-- A worker that dies leaves the store as it is.
pub death-IsTracked :
    (t : Tracked) (live : List Tracked) (s : Store) → IsTracked live s → IsTracked (leaves t live) s
death-IsTracked t live s k = record {
  rows = k.rows;
  ids_unique = k.ids_unique;
  ids_drawn = k.ids_drawn;
  live_unique =
      unique-select (λ (x : Tracked). x.run_id) (λ x. not (x.run_id == t.run_id)) live
        k.live_unique;
  live_held = all-select (held s.runs) (λ x. not (x.run_id == t.run_id)) live k.live_held;
}
