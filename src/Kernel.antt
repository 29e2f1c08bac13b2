-- ===== src/Kernel.antt =====
-- The convergence kernel (backend/app/services/sync_engine.py). A crash at a failpoint ends the run and
-- leaves what was pushed and committed; the value of the environment variable is read as its target and
-- number by a parameter, Python's `partition` and `int`.
pub mod Failpoints
pub mod Passes
pub mod Converges
mod Tests
use big_bug.Prelude.{
  ℕ, ◌+◌, String, Bool, true, false, Option, none, some, List, [], ◌∷◌, if◌then◌else◌, text_keys,
  number_keys, ◌==◌,
}

-- `_hits` and `_active_spec`, over one value of the environment variable per run
pub record Hits : Type 0 where
  pub active_spec : String
  pub counts : List (String × ℕ)

pub record Failpoint : Type 0 where
  pub target : String
  pub nth : ℕ

unfoldable pub count_of : String → List (String × ℕ) → ℕ
count_of name [] = 0
count_of name ((k, n) ∷ counts) = let rest = count_of name counts in if k == name then n else rest

unfoldable pub bump : String → List (String × ℕ) → List (String × ℕ)
unfolding count_of
bump name counts = (name, count_of name counts + 1) ∷ counts

-- The counters start again when the specification changes.
unfoldable pub respecified : String → Hits → Hits
respecified spec st =
    if spec == st.active_spec then st else record { active_spec = spec; counts = [] }

unfoldable pub counted : Failpoint → String → Hits → Bool × Hits
unfolding bump
counted f name st =
    let counts = bump name st.counts in
    if f.target == name
    then (count_of name counts == f.nth, record st { counts = counts })
    else (false, st)

-- What a run of the kernel goes through: the failpoint specification with its reading, and the process
-- state of the counters.
pub record Chaos : Type 0 where
  pub spec : String
  pub read_spec : String → Failpoint
  pub hits : Hits

unfoldable pub _failpoint_hit : String → Chaos → Bool × Chaos
unfolding respecified counted
_failpoint_hit name c =
    let (hit, hits) = counted (c.read_spec c.spec) name (respecified c.spec c.hits) in
    (hit, record c { hits = hits })

-- `none` is a run that has crashed.
pub record Ran (W A : Type 0) : Type 0 where
  pub value : Option A
  pub world : W
  pub chaos : Chaos

-- One injected crash point, and what follows when it does not fire.
unfoldable pub passed : {W A : Type 0} → Bool × Chaos → W → (Chaos → Ran W A) → Ran W A
passed (true, c) w rest = record { value = none; world = w; chaos = c }
passed (false, c) w rest = rest c

unfoldable pub _crash_point : {W A : Type 0} → String → Chaos → W → (Chaos → Ran W A) → Ran W A
unfolding passed
_crash_point name c w rest = passed (_failpoint_hit name c) w rest

-- The outside and the committed database.
pub record World (X D : Type 0) : Type 0 where
  pub external : X
  pub committed : D

module _ {X D A : Type 0} where
  unfoldable pub idempotent_push : (X → A × X) → Chaos → World X D → Ran (World X D) A
  idempotent_push push c w = _crash_point "push:before" c w (λ c1.
      let pushed : World X D = record w { external = (push w.external).1 } in
      _crash_point "push:after" c1 pushed
        (λ c2. record { value = some (push w.external).0; world = pushed; chaos = c2 }))

  unfoldable pub commit_cursor : (D → A × D) → Chaos → World X D → Ran (World X D) A
  commit_cursor apply c w = _crash_point "commit:before" c w (λ c1.
      let saved : World X D = record w { committed = (apply w.committed).1 } in
      _crash_point "commit:after" c1 saved
        (λ c2. record { value = some (apply w.committed).0; world = saved; chaos = c2 }))

-- The two calls of an item: the push, and when it has not crashed the commit.
unfoldable pub and_commit : {X D A B : Type 0} → (D → B × D) → Ran (World X D) A → Ran (World X D) B
and_commit apply r = elim r.value [
  | none ↦ record { value = none; world = r.world; chaos = r.chaos }
  | some _ ↦ commit_cursor apply r.chaos r.world
]

unfoldable pub push_then_commit :
    {X D A B : Type 0} → (X → A × X) → (D → B × D) → Chaos → World X D → Ran (World X D) B
unfolding and_commit
push_then_commit push apply c w = and_commit apply (idempotent_push push c w)

-- The tables after a change that is committed outside of the two calls.
abbrev pub committing : {X D : Type 0} → (D → D) → World X D → World X D
committing change w = record w { committed = change w.committed }

abbrev pub closed : {X D B : Type 0} → (D → D) → Ran (World X D) B → Ran (World X D) B
closed finish r = record r { world = committing finish r.world }

-- The synchronisation of one image: `begin` commits a new log row and its progress, and `finish` the end
-- of that row, which happens in `finally`, after an injected crash too. A copy that fails is left out.
unfoldable pub sync_image :
    {X D A B : Type 0}
    → (D → D)
    → (X → A × X)
    → (D → B × D)
    → (D → D)
    → Chaos
    → World X D
    → Ran (World X D) B
unfolding push_then_commit
sync_image begin push apply finish c w =
    closed finish (push_then_commit push apply c (committing begin w))

pub data Verdict : Type 0 where
  converged missing drift : Verdict

same_digest : Option String → Option String → Bool
same_digest none actual = false
same_digest (some e) none = false
same_digest (some e) (some a) = e == a

absent_or_drift : Option String → Verdict
absent_or_drift none = missing
absent_or_drift (some a) = drift

verdict_after : {X D A : Type 0} → Verdict → Ran (World X D) A → Ran (World X D) Verdict
verdict_after v r = record {
  value = elim r.value [ none ↦ none | some _ ↦ some v ];
  world = r.world;
  chaos = r.chaos;
}

unfoldable pub reconcile :
    {X D A : Type 0}
    → Option String
    → Option String
    → (X → A × X)
    → Chaos
    → World X D
    → Ran (World X D) Verdict
unfolding same_digest absent_or_drift verdict_after
reconcile expected actual repair c w =
    if same_digest expected actual
    then record { value = some converged; world = w; chaos = c }
    else verdict_after (absent_or_drift actual) (idempotent_push repair c w)
