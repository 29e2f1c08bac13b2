-- ===== src/SyncRuns/Kept.antt =====
-- What every store of tracked runs satisfies, and the changes of rows that keep it.
pub mod Waiting
pub mod Starts
pub mod Ends
pub mod Admin
use big_bug.Prelude.{
  ℕ, ◌+◌, ◌<◌, ◌≡◌, refl, sym, ◌∙◌, subst, Bool, true, false, not, ◌&&◌, ◌||◌, List, [], ◌∷◌, ◌++◌,
  Memᴰ, arith, ltb, leb, if◌then◌else◌, text_keys, number_keys, ◌==◌, is_some, any, all, any-append,
  all-append, all_mono, update_where, unique, unique-append_one, unique-overwrite, any-update_where,
  all_mem, mem-all, any_mono, all_over_update,
}
use big_bug.SyncRuns.{
  Store, SyncRun, RunStatus, queued, running, succeeded, failed, failed_permanent, superseded,
  has_status,
}
use big_bug.SyncRuns.Tracking.{Tracked, is_row, save_run}

-- The columns that a status promises, over a budget of attempts.
abbrev fits : RunStatus → SyncRun → Bool
fits queued r = r.attempts == 0 && (not (is_some r.started_at) && not (is_some r.finished_at))
fits running r =
    leb 1 r.attempts
    && (is_some r.heartbeat_at && (not (is_some r.finished_at) && not (is_some r.error)))
fits succeeded r = leb 1 r.attempts && (is_some r.finished_at && not (is_some r.error))
fits failed r =
    leb 1 r.attempts
    && (ltb r.attempts r.max_attempts && (is_some r.finished_at && is_some r.error))
fits failed_permanent r =
    leb 1 r.attempts && (r.attempts == r.max_attempts && (is_some r.finished_at && is_some r.error))
fits superseded r = true

abbrev pub row_fits : SyncRun → Bool
row_fits r = leb 1 r.max_attempts && (leb r.attempts r.max_attempts && fits r.status r)

-- The row of a live wrapper still runs with the attempts the wrapper read, or was superseded.
abbrev pub holds : Tracked → SyncRun → Bool
holds t r =
    r.id == t.run_id
    && (has_status superseded r
        || has_status running r && (r.attempts == t.attempts && r.max_attempts == t.max_attempts))

abbrev pub held : List SyncRun → Tracked → Bool
held runs t = any (holds t) runs

pub record IsTracked (live : List Tracked) (s : Store) : Type 0 where
  pub rows : all row_fits s.runs ≡ true
  pub ids_unique : unique (λ (r : SyncRun). r.id) s.runs ≡ true
  pub ids_drawn : all (λ r. ltb r.id s.next_run_id) s.runs ≡ true
  pub live_unique : unique (λ (t : Tracked). t.run_id) live ≡ true
  pub live_held : all (held s.runs) live ≡ true

undrawn :
    (bound : ℕ) (runs : List SyncRun)
    → all (λ r. ltb r.id bound) runs ≡ true
    → any (λ r. r.id == bound) runs ≡ false
undrawn bound [] h = refl
undrawn bound (r ∷ runs) h = ground (arith, undrawn bound runs)

-- A new row under the next id.
pub appended-IsTracked :
    (live : List Tracked) (s : Store) (r : SyncRun)
    → r.id ≡ s.next_run_id
    → row_fits r ≡ true
    → IsTracked live s
    → IsTracked live (record s { runs = s.runs ++ r ∷ []; next_run_id = s.next_run_id + 1 })
appended-IsTracked live s r fresh fit k = record {
  rows = ground (arith, all-append row_fits s.runs (r ∷ []), k.rows);
  ids_unique =
      unique-append_one (λ (x : SyncRun). x.id) s.runs r k.ids_unique
        (subst (λ i. any (λ x. x.id == i) s.runs ≡ false) (sym fresh)
          (undrawn s.next_run_id s.runs k.ids_drawn));
  ids_drawn = ground (
    arith,
    fresh,
    all-append (λ (x : SyncRun). ltb x.id (s.next_run_id + 1)) s.runs (r ∷ []),
    all_mono (λ (x : SyncRun). ltb x.id s.next_run_id) (λ x. ltb x.id (s.next_run_id + 1)) s.runs
        (λ x e. ground arith) k.ids_drawn,
  );
  live_unique = k.live_unique;
  live_held =
      all_mono (held s.runs) (held (s.runs ++ r ∷ [])) live
        (λ t h. ground (arith, any-append (holds t) s.runs (r ∷ []))) k.live_held;
}

-- A row that takes the place of the row of its id, and leaves every live wrapper its row.
pub saved-IsTracked :
    (live : List Tracked) (s : Store) (r : SyncRun)
    → r.id < s.next_run_id
    → row_fits r ≡ true
    → ((t : Tracked) → Memᴰ t live → t.run_id ≡ r.id → has_status superseded r ≡ true)
    → IsTracked live s
    → IsTracked live (save_run r s)
saved-IsTracked live s r below fit kept k = record {
  rows =
      all_over_update row_fits row_fits (is_row r.id) (λ _. r) s.runs (λ x h. ground arith) k.rows;
  ids_unique = unique-overwrite (λ (x : SyncRun). x.id) r s.runs k.ids_unique;
  ids_drawn =
      all_over_update (λ (x : SyncRun). ltb x.id s.next_run_id) (λ x. ltb x.id s.next_run_id)
        (is_row r.id) (λ _. r) s.runs (λ x h. ground arith) k.ids_drawn;
  live_unique = k.live_unique;
  live_held = all_mem (held (update_where (is_row r.id) (λ _. r) s.runs)) live (λ t m.
      any-update_where (holds t) (is_row r.id) (λ _. r) s.runs
      ∙ any_mono (holds t) (λ x. if is_row r.id x then holds t r else holds t x) s.runs
          (λ x h. ground (arith, kept t m)) (mem-all (held s.runs) live m k.live_held));
}
