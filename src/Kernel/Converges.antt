-- ===== src/Kernel/Converges.antt =====
-- Crashed and repeated runs against runs without a crash, and the order of push and record
-- (backend/app/services/sync_engine.py, and `sync_image` of backend/app/services/docker.py).
use big_bug.Prelude.{
  ◌≡◌, refl, sym, ap, ◌∙◌, subst, inl, inr, true, List, [], ◌∷◌, Memᴰ, text_keys, number_keys,
}
use big_bug.Kernel.{Chaos, World}
use big_bug.Kernel.Failpoints.{quiet}
use big_bug.Kernel.Passes.{
  Items, IsUpsert, go_on, sync_items, sync_passes, whole, half, tried, clean, quiet-sync_items,
  one_stops,
}

-- Worlds with the same outside and the same view of the database.
abbrev pub Alike : {X D V : Type 0} → (D → V) → World X D → World X D → Type 0
Alike view w w' = (w.external ≡ w'.external) × (view w.committed ≡ view w'.committed)

module _ {K X D V : Type 0} (o : Items K X D) (view : D → V) (laws : IsUpsert o view) where
  Alike-trans : (a b c : World X D) → Alike view a b → Alike view b c → Alike view a c
  Alike-trans a b c (x, y) (x', y') = (x ∙ x', y ∙ y')

  -- The push and the change of an item are in place.
  abbrev pub Settled : K → World X D → Type 0
  Settled k w = laws.is_pushed k w.external × laws.is_applied k (view w.committed)

  -- What the database records was pushed.
  abbrev pub Recorded : World X D → Type 0
  Recorded w = (k : K) → laws.is_applied k (view w.committed) → laws.is_pushed k w.external

  -- The view after a whole item is the one after its change.
  whole_view :
      (k : K) (w : World X D) → view (whole o k w).committed ≡ view (o.apply k w.committed).1
  whole_view k w =
      laws.finishes k _
      ∙ laws.apply_view k (o.begin k w.committed) w.committed (laws.begins k w.committed)

  tried_view : (k : K) (w : World X D) → view (tried o k w).committed ≡ view w.committed
  tried_view k w = laws.finishes k _ ∙ laws.begins k w.committed

  whole-Alike :
      (k : K) (w w' : World X D) → Alike view w w' → Alike view (whole o k w) (whole o k w')
  whole-Alike k w w' (x, y) = (
    ap (λ e. (o.push k e).1) x,
    whole_view k w ∙ (laws.apply_view k w.committed w'.committed y ∙ sym (whole_view k w')),
  )

  clean-Alike :
      (items : List K) (w w' : World X D)
      → Alike view w w'
      → Alike view (clean o items w) (clean o items w')
  unfolding clean
  clean-Alike [] w w' e = e
  clean-Alike (k ∷ items) w w' e = clean-Alike items _ _ (whole-Alike k w w' e)

  again : (k : K) (w : World X D) → Settled k w → Alike view (whole o k w) w
  again k w (p, a) =
      (laws.push_again k w.external p, whole_view k w ∙ laws.apply_again k w.committed a)

  whole-Settled : (k : K) (w : World X D) → Settled k (whole o k w)
  whole-Settled k w = (
    laws.pushes k w.external,
    subst (laws.is_applied k) (sym (whole_view k w)) (laws.applies k w.committed),
  )

  tried-Settled : (k j : K) (w : World X D) → Settled k w → Settled k (tried o j w)
  tried-Settled k j w (p, a) = (p, subst (laws.is_applied k) (sym (tried_view j w)) a)

  half-Settled : (k j : K) (w : World X D) → Settled k w → Settled k (half o j w)
  half-Settled k j w (p, a) =
      (laws.pushes_kept k j w.external p, subst (laws.is_applied k) (sym (tried_view j w)) a)

  other-Settled : (k j : K) (w : World X D) → Settled k w → Settled k (whole o j w)
  other-Settled k j w (p, a) = (
    laws.pushes_kept k j w.external p,
    subst (laws.is_applied k) (sym (whole_view j w)) (laws.applies_kept k j w.committed a),
  )

  sync_items-Settled :
      (k : K) (items : List K) (c : Chaos) (w : World X D)
      → Settled k w
      → Settled k (sync_items o items c w)
  unfolding sync_items go_on
  sync_items-Settled k [] c w s = s
  sync_items-Settled k (j ∷ items) c w s =
      one_stops o (λ r. Settled k (go_on o (λ c' w'. sync_items o items c' w') r)) j c w
        (λ c'. tried-Settled k j w s) (λ c'. half-Settled k j w s) (λ c'. other-Settled k j w s)
        (λ b c'. sync_items-Settled k items c' (whole o j w) (other-Settled k j w s))

  -- An item after a crash on it is the item without the crash.
  after_half : (k : K) (w : World X D) → Alike view (whole o k (half o k w)) (whole o k w)
  after_half k w = (
    laws.push_again k (o.push k w.external).1 (laws.pushes k w.external),
    whole_view k (half o k w)
        ∙ (laws.apply_view k (half o k w).committed w.committed (tried_view k w)
            ∙ sym (whole_view k w)),
  )

  clean-sync_items :
      (items : List K) (c : Chaos) (w : World X D)
      → Alike view (clean o items (sync_items o items c w)) (clean o items w)
  unfolding sync_items go_on clean
  clean-sync_items [] c w = (refl, refl)
  clean-sync_items (k ∷ items) c w =
      let after = whole o k w in
      one_stops o
        (λ r.
          Alike view (clean o items (whole o k (go_on o (λ c' w'. sync_items o items c' w') r)))
            (clean o items after))
        k c w (λ c'. clean-Alike items _ _ (whole-Alike k (tried o k w) w (refl, tried_view k w)))
        (λ c'. clean-Alike items _ _ (after_half k w))
        (λ c'. clean-Alike items _ _ (again k after (whole-Settled k w)))
        (λ b c'.
          Alike-trans _ _ _
            (clean-Alike items _ _ (
              again k (sync_items o items c' after)
                (sync_items-Settled k items c' after (whole-Settled k w))))
            (clean-sync_items items c' after))

  clean-sync_passes :
      (items : List K) (passes : List Chaos) (w : World X D)
      → Alike view (clean o items (sync_passes o items passes w)) (clean o items w)
  unfolding sync_passes
  clean-sync_passes items [] w = (refl, refl)
  clean-sync_passes items (c ∷ passes) w =
      Alike-trans _ _ _ (clean-sync_passes items passes (sync_items o items c w))
        (clean-sync_items items c w)

  clean_keeps-Settled :
      (k : K) (items : List K) (w : World X D) → Settled k w → Settled k (clean o items w)
  unfolding clean
  clean_keeps-Settled k [] w s = s
  clean_keeps-Settled k (j ∷ items) w s = clean_keeps-Settled k items _ (other-Settled k j w s)

  clean-Settled :
      (k : K) (items : List K) (w : World X D) → Memᴰ k items → Settled k (clean o items w)
  unfolding clean
  clean-Settled k [] w m = elim m [ ]
  clean-Settled k (j ∷ items) w (Memᴰ.head e) =
      clean_keeps-Settled k items _ (subst (λ x. Settled k (whole o x w)) e (whole-Settled k w))
  clean-Settled k (j ∷ items) w (Memᴰ.tail m) = clean-Settled k items _ m

  tried-Recorded : (j : K) (w : World X D) → Recorded w → Recorded (tried o j w)
  tried-Recorded j w r k a = r k (subst (laws.is_applied k) (tried_view j w) a)

  half-Recorded : (j : K) (w : World X D) → Recorded w → Recorded (half o j w)
  half-Recorded j w r k a =
      laws.pushes_kept k j w.external (r k (subst (laws.is_applied k) (tried_view j w) a))

  whole-Recorded : (j : K) (w : World X D) → Recorded w → Recorded (whole o j w)
  whole-Recorded j w r k a =
      elim (laws.applies_own k j w.committed (subst (laws.is_applied k) (whole_view j w) a)) [
        | inl before ↦ laws.pushes_kept k j w.external (r k before)
        | inr own ↦
            subst (λ i. laws.is_pushed k (o.push i w.external).1) own (laws.pushes k w.external)
      ]

  sync_items-Recorded :
      (items : List K) (c : Chaos) (w : World X D) → Recorded w → Recorded (sync_items o items c w)
  unfolding sync_items go_on
  sync_items-Recorded [] c w r = r
  sync_items-Recorded (j ∷ items) c w r =
      one_stops o (λ q. Recorded (go_on o (λ c' w'. sync_items o items c' w') q)) j c w
        (λ c'. tried-Recorded j w r) (λ c'. half-Recorded j w r) (λ c'. whole-Recorded j w r)
        (λ b c'. sync_items-Recorded items c' (whole o j w) (whole-Recorded j w r))

  sync_passes-Recorded :
      (items : List K) (passes : List Chaos) (w : World X D)
      → Recorded w
      → Recorded (sync_passes o items passes w)
  unfolding sync_passes
  sync_passes-Recorded items [] w r = r
  sync_passes-Recorded items (c ∷ passes) w r =
      sync_passes-Recorded items passes _ (sync_items-Recorded items c w r)

  -- When pushes are upserts, and changes are upserts up to a view of the database that neither log rows
  -- nor time stamps enter, from a world in which every recorded item was pushed: after any number of
  -- passes that crash at any failpoints, or at none, every recorded item was pushed; and a pass without
  -- failpoints then leaves the same outside and the same view as it would without those passes, with
  -- every item of the pass pushed and recorded.
  pub sync_items_converge :
      (items : List K) (passes : List Chaos) (calm : Chaos) (w : World X D)
      → quiet calm ≡ true
      → Recorded w
      → Recorded (sync_passes o items passes w)
        × Alike view
            (sync_items o items calm (sync_passes o items passes w))
            (sync_items o items calm w)
        × ((k : K) → Memᴰ k items → Settled k (sync_items o items calm w))
  sync_items_converge items passes calm w q r = rw (quiet-sync_items o items calm w q) (
      rw (quiet-sync_items o items calm (sync_passes o items passes w) q) (
        sync_passes-Recorded items passes w r,
        clean-sync_passes items passes w,
        λ k m. clean-Settled k items w m,
      ))
