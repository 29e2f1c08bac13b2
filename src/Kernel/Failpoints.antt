-- ===== src/Kernel/Failpoints.antt =====
-- Where a run of the kernel may stop (backend/app/services/sync_engine.py).
use big_bug.Prelude.{
  String, ◌≡◌, refl, ap, ◌∙◌, Bool, true, false, not, none, some, List, [], ◌∷◌, arith, text_keys,
  number_keys, ◌==◌, all, contains, all-contains,
}
use big_bug.Kernel.{
  Chaos, counted, respecified, _failpoint_hit, passed, _crash_point, Ran, World, idempotent_push,
  commit_cursor, push_then_commit, and_commit,
}

abbrev pub failpoints : List String
failpoints = "push:before" ∷ "push:after" ∷ "commit:before" ∷ "commit:after" ∷ []

-- No failpoint is the target.
abbrev pub quiet : Chaos → Bool
quiet c = all (λ name. not ((c.read_spec c.spec).target == name)) failpoints

quiet_miss :
    (name : String) (c : Chaos)
    → ((c.read_spec c.spec).target == name) ≡ false
    → ((_failpoint_hit name c).0 ≡ false) × (quiet (_failpoint_hit name c).1 ≡ quiet c)
unfolding _failpoint_hit counted respecified
quiet_miss name c ne = (rw ne refl, refl)

passed_miss :
    {W A : Type 0} (p : Bool × Chaos) (w : W) (rest : Chaos → Ran W A)
    → p.0 ≡ false
    → passed p w rest ≡ rest p.1
unfolding passed
passed_miss (true, c) w rest e = ground arith
passed_miss (false, c) w rest e = refl

passed_stops :
    {W A : Type 0} (Q : Ran W A → Type 0) (p : Bool × Chaos) (w : W) (rest : Chaos → Ran W A)
    → ((c : Chaos) → Q (record { value = none; world = w; chaos = c }))
    → ((c : Chaos) → Q (rest c))
    → Q (passed p w rest)
unfolding passed
passed_stops Q (true, c) w rest stop go = stop c
passed_stops Q (false, c) w rest stop go = go c

-- A run stops at a failpoint or goes on.
point_stops :
    {W A : Type 0} (Q : Ran W A → Type 0) (name : String) (c : Chaos) (w : W)
    (rest : Chaos → Ran W A)
    → ((c' : Chaos) → Q (record { value = none; world = w; chaos = c' }))
    → ((c' : Chaos) → Q (rest c'))
    → Q (_crash_point name c w rest)
unfolding _crash_point
point_stops Q name c w rest stop go = passed_stops Q (_failpoint_hit name c) w rest stop go

quiet_point :
    {W A : Type 0} (name : String) (c : Chaos) (w : W) (rest : Chaos → Ran W A)
    → ((c.read_spec c.spec).target == name) ≡ false
    → (c' : Chaos) × (_crash_point name c w rest ≡ rest c') × (quiet c' ≡ quiet c)
unfolding _crash_point passed
quiet_point name c w rest ne =
    let (miss, same) = quiet_miss name c ne in
    ((_failpoint_hit name c).1, passed_miss (_failpoint_hit name c) w rest miss, same)

not_hit : (b : Bool) → not b ≡ true → b ≡ false
not_hit true h = ground arith
not_hit false h = refl

quiet_name :
    (c : Chaos) (name : String)
    → quiet c ≡ true
    → contains failpoints name ≡ true
    → ((c.read_spec c.spec).target == name) ≡ false
quiet_name c name q there =
    not_hit _ (all-contains (λ n. not ((c.read_spec c.spec).target == n)) failpoints name q there)

module _ {X D A B : Type 0} (push : X → A × X) (apply : D → B × D) where
  abbrev pub pushed : World X D → World X D
  pushed w = record w { external = (push w.external).1 }

  abbrev pub done : World X D → World X D
  done w = record { external = (push w.external).1; committed = (apply w.committed).1 }

  abbrev pushed_value : World X D → Chaos → Ran (World X D) A
  pushed_value w c = record { value = some (push w.external).0; world = pushed w; chaos = c }

  abbrev after_push : World X D → Chaos → Ran (World X D) A
  after_push w c = _crash_point "push:after" c (pushed w) (pushed_value w)

  abbrev saved : World X D → World X D
  saved w = record w { committed = (apply w.committed).1 }

  abbrev applied_value : World X D → Chaos → Ran (World X D) B
  applied_value w c = record { value = some (apply w.committed).0; world = saved w; chaos = c }

  abbrev after_apply : World X D → Chaos → Ran (World X D) B
  after_apply w c = _crash_point "commit:after" c (saved w) (applied_value w)

  -- A run without a failpoint goes through.
  pub quiet_item :
      (c : Chaos) (w : World X D)
      → quiet c ≡ true
      → (c' : Chaos) × (push_then_commit push apply c w
          ≡ record { value = some (apply w.committed).0; world = done w; chaos = c' })
        × (quiet c' ≡ true)
  unfolding push_then_commit and_commit idempotent_push commit_cursor
  quiet_item c w q =
      let (c1, e1, q1) =
        quiet_point "push:before" c w (after_push w) (quiet_name c "push:before" q refl) in
      let t1 = q1 ∙ q in
      let (c2, e2, q2) =
        quiet_point "push:after" c1 (pushed w) (pushed_value w)
          (quiet_name c1 "push:after" t1 refl) in
      let t2 = q2 ∙ t1 in
      let (c3, e3, q3) =
        quiet_point "commit:before" c2 (pushed w) (after_apply (pushed w))
          (quiet_name c2 "commit:before" t2 refl) in
      let t3 = q3 ∙ t2 in
      let (c4, e4, q4) =
        quiet_point "commit:after" c3 (done w) (applied_value (pushed w))
          (quiet_name c3 "commit:after" t3 refl) in
      (c4, ap (and_commit apply) (e1 ∙ e2) ∙ (e3 ∙ e4), q4 ∙ t3)

  -- Any run ends before the push, after it, or with the item done, and it returns only then.
  pub item_stops :
      (P : Ran (World X D) B → Type 0) (c : Chaos) (w : World X D)
      → ((c' : Chaos) → P (record { value = none; world = w; chaos = c' }))
      → ((c' : Chaos) → P (record { value = none; world = pushed w; chaos = c' }))
      → ((c' : Chaos) → P (record { value = none; world = done w; chaos = c' }))
      → ((c' : Chaos)
          → P (record { value = some (apply w.committed).0; world = done w; chaos = c' }))
      → P (push_then_commit push apply c w)
  unfolding push_then_commit and_commit idempotent_push commit_cursor
  item_stops P c w before between crashed finished =
      point_stops (λ r. P (and_commit apply r)) "push:before" c w (after_push w) before
        (λ c1.
          point_stops (λ r. P (and_commit apply r)) "push:after" c1 (pushed w) (pushed_value w)
            between
            (λ c2.
              point_stops P "commit:before" c2 (pushed w) (after_apply (pushed w)) between (λ c3.
                point_stops P "commit:after" c3 (done w) (applied_value (pushed w)) crashed
                  finished)))
