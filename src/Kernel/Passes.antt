-- ===== src/Kernel/Passes.antt =====
-- Convergence of crashed and repeated runs (backend/app/services/sync_engine.py, and `sync_image` of
-- backend/app/services/docker.py).
use big_bug.Prelude.{
  ◌≡◌, refl, ap, ◌∙◌, ◌⊎◌, Bool, true, none, some, List, [], ◌∷◌, text_keys, number_keys,
}
use big_bug.Kernel.{Chaos, Ran, World, committing, closed, sync_image}
use big_bug.Kernel.Failpoints.{quiet, done, pushed, quiet_item, item_stops}

-- The items of a pass: what is committed when an item begins, the push to the outside, the change of
-- the database that follows, and what is committed at the end.
pub record Items (K X D : Type 0) : Type 0 where
  pub begin : K → D → D
  pub push : K → X → Bool × X
  pub apply : K → D → Bool × D
  pub finish : K → D → D

-- Pushing again changes nothing. Of the database the same is asked of a view only, which leaves out
-- what differs from run to run: log rows and time stamps. Only an item itself marks it as applied.
pub record IsUpsert {K X D V : Type 0} (o : Items K X D) (view : D → V) : Type 1 where
  pub is_pushed : K → X → Type 0
  pub is_applied : K → V → Type 0
  pub begins : (k : K) (d : D) → view (o.begin k d) ≡ view d
  pub finishes : (k : K) (d : D) → view (o.finish k d) ≡ view d
  pub pushes : (k : K) (x : X) → is_pushed k (o.push k x).1
  pub pushes_kept : (k j : K) (x : X) → is_pushed k x → is_pushed k (o.push j x).1
  pub push_again : (k : K) (x : X) → is_pushed k x → (o.push k x).1 ≡ x
  pub applies : (k : K) (d : D) → is_applied k (view (o.apply k d).1)
  pub applies_kept : (k j : K) (d : D) → is_applied k (view d) → is_applied k (view (o.apply j d).1)
  pub applies_own :
      (k j : K) (d : D) → is_applied k (view (o.apply j d).1) → is_applied k (view d) ⊎ (k ≡ j)
  pub apply_again : (k : K) (d : D) → is_applied k (view d) → view (o.apply k d).1 ≡ view d
  pub apply_view :
      (k : K) (d d' : D) → view d ≡ view d' → view (o.apply k d).1 ≡ view (o.apply k d').1

module _ {K X D : Type 0} (o : Items K X D) where
  abbrev pub sync_one : K → Chaos → World X D → Ran (World X D) Bool
  sync_one k = sync_image (o.begin k) (o.push k) (o.apply k) (o.finish k)

  unfoldable pub go_on : (Chaos → World X D → World X D) → Ran (World X D) Bool → World X D
  go_on rest r = elim r.value [ none ↦ r.world | some _ ↦ rest r.chaos r.world ]

  -- A pass over the items, which stops at the first crash, and the world that it leaves.
  unfoldable pub sync_items : List K → Chaos → World X D → World X D
  unfolding go_on sync_image
  sync_items [] c w = w
  sync_items (k ∷ items) c w = go_on (λ c' w'. sync_items items c' w') (sync_one k c w)

  -- One pass after the other, each with a specification and counters of its own.
  unfoldable pub sync_passes : List K → List Chaos → World X D → World X D
  sync_passes items [] w = w
  sync_passes items (c ∷ passes) w = sync_passes items passes (sync_items items c w)

  -- An item without a crash, and an item that crashes before or after the push.
  abbrev pub whole : K → World X D → World X D
  whole k w = committing (o.finish k) (done (o.push k) (o.apply k) (committing (o.begin k) w))

  abbrev pub half : K → World X D → World X D
  half k w = committing (o.finish k) (pushed (o.push k) (o.apply k) (committing (o.begin k) w))

  abbrev pub tried : K → World X D → World X D
  tried k w = committing (o.finish k) (committing (o.begin k) w)

  -- The pass without failpoints.
  unfoldable pub clean : List K → World X D → World X D
  clean [] w = w
  clean (k ∷ items) w = clean items (whole k w)

  pub quiet-sync_items :
      (items : List K) (c : Chaos) (w : World X D)
      → quiet c ≡ true
      → sync_items items c w ≡ clean items w
  unfolding sync_items go_on clean sync_image
  quiet-sync_items [] c w q = refl
  quiet-sync_items (k ∷ items) c w q =
      let (c', e, q') = quiet_item (o.push k) (o.apply k) c (committing (o.begin k) w) q in
      ap (λ r. go_on (λ c' w'. sync_items items c' w') (closed (o.finish k) r)) e
      ∙ quiet-sync_items items c' _ q'

  -- Where an item of a pass may stop.
  pub one_stops :
      (P : Ran (World X D) Bool → Type 0) (k : K) (c : Chaos) (w : World X D)
      → ((c' : Chaos) → P (record { value = none; world = tried k w; chaos = c' }))
      → ((c' : Chaos) → P (record { value = none; world = half k w; chaos = c' }))
      → ((c' : Chaos) → P (record { value = none; world = whole k w; chaos = c' }))
      → ((b : Bool) (c' : Chaos) → P (record { value = some b; world = whole k w; chaos = c' }))
      → P (sync_one k c w)
  unfolding sync_image
  one_stops P k c w before between crashed finished =
      item_stops (o.push k) (o.apply k) (λ r. P (closed (o.finish k) r)) c
        (committing (o.begin k) w) before between crashed (λ c'. finished _ c')
