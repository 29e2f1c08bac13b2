-- ===== src/Reaper/Tests.antt =====
-- Counters as a list, and a pass over one stuck task.
use big_bug.Prelude.{
  ℕ, ◌+◌, ◌≤◌, String, ◌≡◌, refl, Option, none, some, List, [], ◌∷◌, ◌++◌, map, if◌then◌else◌,
  text_keys, number_keys, ◌==◌,
}
use big_bug.Reaper.{
  Counters, IsCounters, Message, Reply, Pass, _parse_task, _redeliver, reap_entry, reap_entries,
  reap_pending,
}
use big_bug.Reaper.Bound.{deliveries, reap_pending_ceiling}
use big_bug.Reaper.Accounts.{times, kept, label_of, claimed_entries, reap_pending_accounts}

abbrev Counts : Type 0
Counts = List (String × ℕ)

value_of : Counts → String → ℕ
value_of [] key = 0
value_of ((k, n) ∷ c) key = let rest = value_of c key in if k == key then n else rest

abbrev listed : Counters Counts
unfolding value_of
listed = record {
  value = value_of;
  incr = λ key c. (value_of c key + 1, (key, value_of c key + 1) ∷ c);
}

listed-IsCounters : IsCounters listed
unfolding listed value_of
listed-IsCounters = record { returned = λ key c. refl; counted = λ key other c. refl }

-- The fields of an entry are its task id here.
abbrev read : String → Option Message
read id =
    if id == "" then none else some (record { task_id = some id; task_name = some "cleanup_task" })

abbrev stuck : Reply String
stuck = record {
  next_cursor = "0-0";
  entries =
      record { entry_id = "1-0"; fields = "a" }
      ∷ record { entry_id = "2-0"; fields = "a" }
      ∷ record { entry_id = "3-0"; fields = "a" }
      ∷ [];
}

abbrev idle : Pass Counts String
idle = record { counters = []; stream = []; acked = []; claimed = 0; poison = [] }

third_is_poison : (reap_pending listed read 2 (stuck ∷ []) idle).poison ≡ "cleanup_task:a" ∷ []
unfolding reap_pending reap_entries reap_entry _redeliver _parse_task listed value_of
third_is_poison = refl

reap_pending_ceiling_example :
    deliveries listed listed-IsCounters read 2 "bigbug:reaper:reclaims:a"
      (reap_pending listed read 2 (stuck ∷ []) idle).stream
    ≤ deliveries listed listed-IsCounters read 2 "bigbug:reaper:reclaims:a" [] + 2
reap_pending_ceiling_example =
    reap_pending_ceiling listed listed-IsCounters read 2 "bigbug:reaper:reclaims:a" (stuck ∷ [])
      idle

-- Two entries of the task are in the stream again, and the third is poison.
reap_pending_accounts_example :
    ((reap_pending listed read 2 (stuck ∷ []) idle).acked
      ≡ [] ++ map (λ e. e.entry_id) (claimed_entries listed listed-IsCounters read 2 (stuck ∷ [])))
    × (kept listed listed-IsCounters read 2 "cleanup_task:a"
          (reap_pending listed read 2 (stuck ∷ []) idle)
        ≡ kept listed listed-IsCounters read 2 "cleanup_task:a" idle
          + times "cleanup_task:a" (
              map
                (λ e. label_of listed listed-IsCounters read 2 e.fields)
                (claimed_entries listed listed-IsCounters read 2 (stuck ∷ []))))
reap_pending_accounts_example =
    reap_pending_accounts listed listed-IsCounters read 2 "cleanup_task:a" (stuck ∷ []) idle
