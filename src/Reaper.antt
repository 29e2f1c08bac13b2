-- ===== src/Reaper.antt =====
-- The reaper of pending stream entries (backend/app/tasks/reaper.py). Redis counters are a record of
-- operations with laws, the replies of XAUTOCLAIM a list of what the calls of one pass return, and the
-- parsing of an entry's JSON a parameter. The time to live of the counters is left out.
pub mod Bound
pub mod Accounts
mod Tests
use Prim.Native.String.{◌++◌ as str_append}
use big_bug.Prelude.{
  ℕ, ◌+◌, String, ◌≡◌, ◌||◌, Option, none, some, List, [], ◌∷◌, ◌++◌, ltb, if◌then◌else◌, text_keys,
  number_keys, ◌==◌, is_some, length,
}

pub record Counters (C : Type 0) : Type 0 where
  pub value : C → String → ℕ
  pub incr : String → C → ℕ × C

pub record IsCounters {C : Type 0} (o : Counters C) : Type 0 where
  pub returned : (key : String) (c : C) → (o.incr key c).0 ≡ o.value c key + 1
  pub counted :
      (key other : String) (c : C)
      → o.value (o.incr key c).1 other
        ≡ (if key == other then o.value c key + 1 else o.value c other)

-- The data of an entry: `none` when it is missing, empty or no JSON; the two keys may be missing.
pub record Message : Type 0 where
  pub task_id : Option String
  pub task_name : Option String

pub record Entry (F : Type 0) : Type 0 where
  pub entry_id : String
  pub fields : F

pub record Reply (F : Type 0) : Type 0 where
  pub next_cursor : String
  pub entries : List (Entry F)

-- What one pass has done so far.
pub record Pass (C F : Type 0) : Type 0 where
  pub counters : C
  pub stream : List F
  pub acked : List String
  pub claimed : ℕ
  pub poison : List String

abbrev known_or : Option String → String
known_or none = "unknown"
known_or (some t) = t

abbrev pub names_of : Option Message → String × String
names_of none = ("unknown", "unknown")
names_of (some m) = (known_or m.task_id, known_or m.task_name)

module _ {C F : Type 0} (o : Counters C) (parse : F → Option Message) (ceiling : ℕ) where
  unfoldable pub _parse_task : F → String × String
  _parse_task fields = names_of (parse fields)

  abbrev pub _reclaim_key : String → String
  _reclaim_key task_id = str_append "bigbug:reaper:reclaims:" task_id

  -- The counter goes up first; over the ceiling the entry is poison and is not added again.
  unfoldable pub _redeliver : F → Pass C F → Option String × Pass C F
  _redeliver fields p =
      let (task_id, task_name) = _parse_task fields in
      let (count, counters) = o.incr (_reclaim_key task_id) p.counters in
      if ltb ceiling count
      then (
        none,
        record p {
          counters = counters;
          poison = p.poison ++ str_append task_name (str_append ":" task_id) ∷ [];
        },
      )
      else (some task_id, record p { counters = counters; stream = p.stream ++ fields ∷ [] })

  -- The old entry is acknowledged either way.
  unfoldable pub reap_entry : Entry F → Pass C F → Pass C F
  reap_entry e p =
      let (task_id, p') = _redeliver e.fields p in
      record p' {
        claimed = if is_some task_id then p'.claimed + 1 else p'.claimed;
        acked = p'.acked ++ e.entry_id ∷ [];
      }

  unfoldable pub reap_entries : List (Entry F) → Pass C F → Pass C F
  reap_entries [] p = p
  reap_entries (e ∷ entries) p = reap_entries entries (reap_entry e p)

  -- The loop ends on a reply without entries and on the last cursor.
  unfoldable pub reap_pending : List (Reply F) → Pass C F → Pass C F
  reap_pending [] p = p
  reap_pending (r ∷ replies) p =
      let p' = reap_entries r.entries p in
      let more = reap_pending replies p' in
      if length r.entries == 0 || (r.next_cursor == "" || r.next_cursor == "0-0") then p' else more
