-- ===== src/Reaper/Bound.antt =====
-- How often the reaper delivers a task again (backend/app/tasks/reaper.py).
use Prim.Native.String.{◌++◌ as str_append}
use big_bug.Prelude.{
  ℕ, ◌+◌, ◌≤◌, String, ◌≡◌, ap, inl, inr, Bool, true, false, ◌||◌, Option, List, [], ◌∷◌, ◌++◌,
  arith, ltb, if◌then◌else◌, text_keys, number_keys, ◌==◌, Bool-cases, length, select,
}
use big_bug.Reaper.{
  Counters, IsCounters, Message, Entry, Reply, Pass, _parse_task, _reclaim_key, _redeliver,
  reap_entry, reap_entries, reap_pending,
}

module _ {C F : Type 0} (o : Counters C) (laws : IsCounters o) (parse : F → Option Message)
    (ceiling : ℕ) where
  -- The entries in a stream whose counter is the one of a task.
  unfoldable pub deliveries : String → List F → ℕ
  deliveries key fields =
      length
        (select (λ f. _reclaim_key o parse ceiling (_parse_task o parse ceiling f).0 == key) fields)

  deliveries-append :
      (key : String) (xs : List F) (f : F)
      → deliveries key (xs ++ f ∷ [])
        ≡ deliveries key xs
          + (if _reclaim_key o parse ceiling (_parse_task o parse ceiling f).0 == key then 1 else 0)
  unfolding deliveries
  deliveries-append key [] f = ground arith
  deliveries-append key (x ∷ xs) f = ground (arith, deliveries-append key xs f)

  -- No counter lies below what was delivered again, up to the ceiling.
  abbrev Bounded : ℕ → String → Pass C F → Type 0
  Bounded before key p =
      (deliveries key p.stream ≤ before + ceiling)
      × (deliveries key p.stream ≤ before + o.value p.counters key)

  grow :
      (before : ℕ) (key own : String) (p : Pass C F)
      → own ≡ key
      → deliveries key p.stream ≤ before + o.value p.counters key
      → deliveries key p.stream ≤ before + (o.value p.counters own + 1)
  grow before key own p it b = let v = ap (o.value p.counters) it in grind (arith, v)

  more :
      (before : ℕ) (key own : String) (p : Pass C F)
      → own ≡ key
      → (o.incr own p.counters).0 ≡ o.value p.counters own + 1
      → ltb ceiling (o.incr own p.counters).0 ≡ false
      → deliveries key p.stream ≤ before + ceiling
      → deliveries key p.stream ≤ before + o.value p.counters key
      → (deliveries key p.stream + 1 ≤ before + ceiling)
        × (deliveries key p.stream + 1 ≤ before + (o.value p.counters own + 1))
  more before key own p it up within a b =
      let v = ap (o.value p.counters) it in (grind (arith, v, up), grind (arith, v))

  abbrev pub own_key : Entry F → String
  own_key e = _reclaim_key o parse ceiling (_parse_task o parse ceiling e.fields).0

  abbrev pub after_incr : Entry F → Pass C F → Bool
  after_incr e p = ltb ceiling (o.incr (own_key e) p.counters).0

  unfoldable pub poisoned : Entry F → Pass C F → Pass C F
  poisoned e p = record p {
    counters = (o.incr (own_key e) p.counters).1;
    poison =
        p.poison
        ++ str_append (_parse_task o parse ceiling e.fields).1
            (str_append ":" (_parse_task o parse ceiling e.fields).0)
          ∷ [];
    acked = p.acked ++ e.entry_id ∷ [];
  }

  unfoldable pub delivered : Entry F → Pass C F → Pass C F
  delivered e p = record p {
    counters = (o.incr (own_key e) p.counters).1;
    stream = p.stream ++ e.fields ∷ [];
    claimed = p.claimed + 1;
    acked = p.acked ++ e.entry_id ∷ [];
  }

  pub either_way :
      (P : Pass C F → Type 0) (e : Entry F) (p : Pass C F)
      → (after_incr e p ≡ true → P (poisoned e p))
      → (after_incr e p ≡ false → P (delivered e p))
      → P (reap_entry o parse ceiling e p)
  unfolding reap_entry _redeliver poisoned delivered
  either_way P e p over within = elim (Bool-cases (after_incr e p)) [
    | inl h ↦ rw (h, reap_entry) (over h)
    | inr h ↦ rw (h, reap_entry) (within h)
  ]

  entry-Bounded :
      (before : ℕ) (key : String) (e : Entry F) (p : Pass C F)
      → Bounded before key p
      → Bounded before key (reap_entry o parse ceiling e p)
  unfolding poisoned delivered
  entry-Bounded before key e p (a, b) =
      let own = own_key e in
      let up = laws.returned own p.counters in
      let seen = laws.counted own key p.counters in
      let same = (text_keys.agrees own key).0 in
      either_way (Bounded before key) e p
        (λ over. (
          a,
          rw seen (elim (Bool-cases (own == key)) [
            | inl it ↦ rw it (grow before key own p (same it) b)
            | inr other ↦ rw other b
          ]),
        ))
        (λ within. rw (deliveries-append key p.stream e.fields) (
          rw seen (elim (Bool-cases (own == key)) [
            | inl it ↦ rw it (more before key own p (same it) up within a b)
            | inr other ↦ rw other (ground arith, ground arith)
          ])))

  entries-Bounded :
      (before : ℕ) (key : String) (entries : List (Entry F)) (p : Pass C F)
      → Bounded before key p
      → Bounded before key (reap_entries o parse ceiling entries p)
  unfolding reap_entries
  entries-Bounded before key [] p b = b
  entries-Bounded before key (e ∷ entries) p b =
      entries-Bounded before key entries _ (entry-Bounded before key e p b)

  pass-Bounded :
      (before : ℕ) (key : String) (replies : List (Reply F)) (p : Pass C F)
      → Bounded before key p
      → Bounded before key (reap_pending o parse ceiling replies p)
  unfolding reap_pending
  pass-Bounded before key [] p b = b
  pass-Bounded before key (r ∷ replies) p b =
      let done = entries-Bounded before key r.entries p b in
      elim (Bool-cases (length r.entries == 0 || (r.next_cursor == "" || r.next_cursor == "0-0"))) [
        | inl stop ↦ rw stop done
        | inr go ↦ rw go (pass-Bounded before key replies _ done)
      ]

  -- With the laws of the counters, a pass adds to the stream at most as many entries with the counter
  -- of one task as the ceiling says, whatever the replies hold.
  pub reap_pending_ceiling :
      (key : String) (replies : List (Reply F)) (p : Pass C F)
      → deliveries key (reap_pending o parse ceiling replies p).stream
        ≤ deliveries key p.stream + ceiling
  reap_pending_ceiling key replies p =
      (pass-Bounded (deliveries key p.stream) key replies p (ground arith, ground arith)).0
