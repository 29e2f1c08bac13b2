-- ===== src/SyncRuns/Kept/Waiting.antt =====
-- A waiting row of the tracked runs, and the wrapper that starts to run it
-- (`_claim_or_create_run` in backend/app/tasks/run_tracking.py).
use big_bug.Prelude.{
  ◌≡◌, refl, sym, ◌∙◌, subst, ◌≢◌, inl, inr, Bool, true, false, ◌&&◌, ◌||◌, some, List, [], ◌∷◌,
  ◌++◌, Memᴰ, arith, ltb, leb, if◌then◌else◌, text_keys, number_keys, ◌==◌, Bool-cases,
  Option-cases, any, find, all-append, first, mem-any, unique-append_one, any-unique,
  any-update_where, mem-all, any_mono,
}
use big_bug.SyncRuns.{Store, SyncRun, running, superseded, has_status, newest}
use big_bug.SyncRuns.Tracking.{Tracked, tracked, is_row, save_run}
use big_bug.SyncRuns.Kept.{IsTracked, row_fits, holds, held, saved-IsTracked}

pub newest_lem :
    (p : SyncRun → Bool) (runs : List SyncRun) {r : SyncRun}
    → newest p runs ≡ some r
    → Memᴰ r runs × (p r ≡ true)
newest_lem p [] h = ground arith
newest_lem p (x ∷ runs) {r} h = elim (Bool-cases (p x)) [
  | inr miss ↦ let (m, e) = newest_lem p runs {r = r} (ground arith) in (Memᴰ.tail m, e)
  | inl hit ↦ elim (Option-cases (newest p runs)) [
    | inl none_left ↦
        let same : x ≡ r = ground (arith, none_left) in
        (Memᴰ.head (sym same), subst (λ y. p y ≡ true) same hit)
    | inr (y, there) ↦ elim (Bool-cases (leb y.id x.id)) [
      | inl first ↦
          let same : x ≡ r = ground (arith, there) in
          (Memᴰ.head (sym same), subst (λ y. p y ≡ true) same hit)
      | inr second ↦
          let same : y ≡ r = ground (arith, there) in
          let (m, e) = newest_lem p runs there in
          (Memᴰ.tail (subst (λ z. Memᴰ z runs) same m), subst (λ z. p z ≡ true) same e)
    ]
  ]
]

pub find_mem :
    (p : SyncRun → Bool) (runs : List SyncRun) {r : SyncRun} → find p runs ≡ some r → Memᴰ r runs
find_mem p [] h = ground arith
find_mem p (x ∷ runs) {r} h = elim (Bool-cases (p x)) [
  | inl hit ↦ let same : x ≡ r = ground arith in Memᴰ.head (sym same)
  | inr miss ↦ Memᴰ.tail (find_mem p runs {r = r} (ground arith))
]

-- No wrapper is live for a row that waits for its start.
pub no_wrapper :
    (live : List Tracked) (s : Store) (r : SyncRun)
    → IsTracked live s
    → Memᴰ r s.runs
    → (has_status superseded r || has_status running r) ≡ false
    → (t : Tracked) → Memᴰ t live
    → t.run_id ≢ r.id
no_wrapper live s r k m idle t tm e =
    let taken : SyncRun → Bool = λ x. has_status superseded x || has_status running x in
    let one = any-unique (λ (x : SyncRun). x.id) taken s.runs k.ids_unique m in
    let here =
      any_mono (holds t) (λ x. taken x && x.id == r.id) s.runs (λ x h. ground arith)
        (mem-all (held s.runs) live tm k.live_held) in
    ground (arith, one, here)

pub any_mem_false :
    {A : Type 0} (p : A → Bool) (xs : List A)
    → ((x : A) → Memᴰ x xs → p x ≡ false)
    → any p xs ≡ false
any_mem_false p [] h = refl
any_mem_false p (x ∷ xs) h =
    ground (arith, h x (Memᴰ.head refl), any_mem_false p xs (λ y m. h y (Memᴰ.tail m)))

pub joined-IsTracked :
    (live : List Tracked) (s : Store) (t : Tracked)
    → IsTracked live s
    → any (λ x. x.run_id == t.run_id) live ≡ false
    → held s.runs t ≡ true
    → IsTracked (live ++ t ∷ []) s
joined-IsTracked live s t k new h = record {
  rows = k.rows;
  ids_unique = k.ids_unique;
  ids_drawn = k.ids_drawn;
  live_unique = unique-append_one (λ (x : Tracked). x.run_id) live t k.live_unique new;
  live_held = ground (arith, all-append (held s.runs) live (t ∷ []), k.live_held);
}

-- A waiting row that starts to run.
pub start-IsTracked :
    (live : List Tracked) (s : Store) (r r' : SyncRun)
    → IsTracked live s
    → Memᴰ r s.runs
    → (has_status superseded r || has_status running r) ≡ false
    → r'.id ≡ r.id
    → row_fits r' ≡ true
    → has_status running r' ≡ true
    → IsTracked (live ++ tracked r' ∷ []) (save_run r' s)
start-IsTracked live s r r' k m idle same fit runs =
    let absent = no_wrapper live s r k m idle in
    let below = mem-all (λ (x : SyncRun). ltb x.id s.next_run_id) s.runs m k.ids_drawn in
    let there = mem-any (is_row r'.id) s.runs m (ground arith) in
    joined-IsTracked live (save_run r' s) (tracked r')
      (saved-IsTracked live s r' (ground arith) fit (λ t tm e. elim (absent t tm (e ∙ same)) [ ]) k)
      (any_mem_false (λ (x : Tracked). x.run_id == r'.id) live
        (λ t tm. ground (arith, absent t tm)))
      (any-update_where (holds (tracked r')) (is_row r'.id) (λ _. r') s.runs
        ∙ any_mono (is_row r'.id)
            (λ x. if is_row r'.id x then holds (tracked r') r' else holds (tracked r') x) s.runs
            (λ x e. ground arith) there)
