-- ===== src/Reaper/Accounts.antt =====
-- What becomes of the entries that the reaper claims (backend/app/tasks/reaper.py).
use Prim.Native.String.{◌++◌ as str_append}
use mathlib.Core.List.{append_assoc, append-nil}
use big_bug.Prelude.{
  ℕ, ◌+◌, String, ◌≡◌, refl, sym, ap, ◌∙◌, inl, inr, ◌||◌, Option, List, [], ◌∷◌, ◌++◌, map, arith,
  if◌then◌else◌, text_keys, number_keys, ◌==◌, Bool-cases, length, select,
}
use big_bug.Reaper.{
  Counters, IsCounters, Message, Entry, Reply, Pass, _parse_task, reap_entry, reap_entries,
  reap_pending,
}
use big_bug.Reaper.Bound.{either_way, poisoned, delivered}

unfoldable pub times : String → List String → ℕ
times label xs = length (select (λ x. x == label) xs)

times-append :
    (label : String) (xs ys : List String)
    → times label (xs ++ ys) ≡ times label xs + times label ys
unfolding times
times-append label [] ys = ground arith
times-append label (x ∷ xs) ys = ground (arith, times-append label xs ys)

map-append :
    {A : Type 0} (f : A → String) (xs ys : List A) → map f (xs ++ ys) ≡ map f xs ++ map f ys
map-append f [] ys = refl
map-append f (x ∷ xs) ys = ap (λ r. f x ∷ r) (map-append f xs ys)

module _ {C F : Type 0} (o : Counters C) (laws : IsCounters o) (parse : F → Option Message)
    (ceiling : ℕ) where
  -- The name and id of a task, as they are written for poison.
  abbrev pub label_of : F → String
  label_of fields =
      str_append (_parse_task o parse ceiling fields).1
        (str_append ":" (_parse_task o parse ceiling fields).0)

  -- The entries that the calls of a pass claim.
  unfoldable pub claimed_entries : List (Reply F) → List (Entry F)
  claimed_entries [] = []
  claimed_entries (r ∷ replies) =
      let rest = claimed_entries replies in
      if length r.entries == 0 || (r.next_cursor == "" || r.next_cursor == "0-0")
      then r.entries
      else r.entries ++ rest

  -- How often a task is in the stream and among the poison.
  unfoldable pub kept : String → Pass C F → ℕ
  unfolding times
  kept label p = times label (map label_of p.stream) + times label p.poison

  abbrev claims : String → List (Entry F) → ℕ
  claims label entries = times label (map (λ e. label_of e.fields) entries)

  record Accounts (entries : List (Entry F)) (p q : Pass C F) : Type 0 where
    acked : q.acked ≡ p.acked ++ map (λ e. e.entry_id) entries
    none_lost : (label : String) → kept label q ≡ kept label p + claims label entries

  one_more :
      (label : String) (fields : F) (stream : List F)
      → times label (map label_of (stream ++ fields ∷ []))
        ≡ times label (map label_of stream) + times label (label_of fields ∷ [])
  one_more label fields stream =
      ap (times label) (map-append label_of stream (fields ∷ []))
      ∙ times-append label (map label_of stream) (label_of fields ∷ [])

  entry-Accounts :
      (e : Entry F) (p : Pass C F) → Accounts (e ∷ []) p (reap_entry o parse ceiling e p)
  unfolding poisoned delivered kept
  entry-Accounts e p =
      either_way o laws parse ceiling (λ q. Accounts (e ∷ []) p q) e p
        (λ over. record {
          acked = refl;
          none_lost = λ label. grind (arith, times-append label p.poison (label_of e.fields ∷ []));
        })
        (λ within. record {
          acked = refl;
          none_lost = λ label. grind (arith, one_more label e.fields p.stream);
        })

  Accounts-trans :
      (xs ys : List (Entry F)) (p q r : Pass C F)
      → Accounts xs p q
      → Accounts ys q r
      → Accounts (xs ++ ys) p r
  Accounts-trans xs ys p q r a b = record {
    acked =
        b.acked
        ∙ (ap (λ l. l ++ map (λ e. e.entry_id) ys) a.acked
            ∙ (append_assoc p.acked _ _
                ∙ ap (λ l. p.acked ++ l) (sym (map-append (λ (e : Entry F). e.entry_id) xs ys))));
    none_lost = λ label. grind (
      arith,
      a.none_lost label,
      b.none_lost label,
      map-append (λ (e : Entry F). label_of e.fields) xs ys,
      times-append label (map (λ e. label_of e.fields) xs) (map (λ e. label_of e.fields) ys),
    );
  }

  nothing : (p : Pass C F) → Accounts [] p p
  unfolding times
  nothing p = record { acked = sym (append-nil p.acked); none_lost = λ label. ground arith }

  entries-Accounts :
      (entries : List (Entry F)) (p : Pass C F)
      → Accounts entries p (reap_entries o parse ceiling entries p)
  unfolding reap_entries
  entries-Accounts [] p = nothing p
  entries-Accounts (e ∷ entries) p =
      Accounts-trans (e ∷ []) entries p _ _ (entry-Accounts e p) (entries-Accounts entries _)

  pass-Accounts :
      (replies : List (Reply F)) (p : Pass C F)
      → Accounts (claimed_entries replies) p (reap_pending o parse ceiling replies p)
  unfolding reap_pending claimed_entries
  pass-Accounts [] p = nothing p
  pass-Accounts (r ∷ replies) p =
      let done = entries-Accounts r.entries p in
      elim (Bool-cases (length r.entries == 0 || (r.next_cursor == "" || r.next_cursor == "0-0"))) [
        | inl stop ↦ rw stop done
        | inr go ↦ rw go (
            Accounts-trans r.entries (claimed_entries replies) p _ _ done (pass-Accounts replies _))
      ]

  -- A pass acknowledges the entries that its calls claim, each once and in order, and no task is lost:
  -- for every task name with its id, the entries of that task in the stream and among the poison have
  -- together grown by exactly the claimed entries of that task.
  pub reap_pending_accounts :
      (label : String) (replies : List (Reply F)) (p : Pass C F)
      → ((reap_pending o parse ceiling replies p).acked
          ≡ p.acked ++ map (λ e. e.entry_id) (claimed_entries replies))
        × (kept label (reap_pending o parse ceiling replies p)
            ≡ kept label p + times label (map (λ e. label_of e.fields) (claimed_entries replies)))
  reap_pending_accounts label replies p =
      let h = pass-Accounts replies p in (h.acked, h.none_lost label)
