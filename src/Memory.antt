-- ===== src/Memory.antt =====
-- What the server remembers of the turns of a session, a user, a device, a room and a household:
-- InMemoryMemoryStore of internal/agent/runtime_backends.go, and the records of contracts.go there.
-- The mutex makes a call one atomic step.
pub mod Scopes
pub mod Keys
pub mod Records
pub mod Kept
pub mod Context
pub mod Told
pub mod Saves
mod Tests
use agent_server.Prelude.{
  ℕ, ◌+◌, ◌-◌, Bool, true, false, not, ◌&&◌, List, [], ◌∷◌, ◌++◌, map, if◌then◌else◌, length,
  is_empty, Option, none, some, ℤ, pos, leb_ℤ, ltb_ℤ, pos_part, drop,
}
use agent_server.Text.{Text, codes, text_eq, trim_space}
use Scopes.{MemoryScope, MemoryRecord, memory_record_scopes}

-- A key that the map does not hold has no records.
pub record InMemoryMemoryStore : Type 0 where
  pub max_turns : ℤ
  pub recent_turn_span : ℤ
  pub records_by_scope : Text → List MemoryRecord

unfoldable pub new_in_memory_memory_store : ℤ → InMemoryMemoryStore
new_in_memory_memory_store max_turns =
    let most = if leb_ℤ max_turns (pos 0) then pos 8 else max_turns in
    record {
      max_turns = most;
      recent_turn_span = if ltb_ℤ most (pos 4) then most else pos 4;
      records_by_scope = λ key. [];
    }

abbrev pub put_before : MemoryRecord → Option (List MemoryRecord) → Option (List MemoryRecord)
put_before e none = none
put_before e (some later) = some (e ∷ later)

-- The first record of the same turn gives way to the new one; `none` if there is none.
unfoldable pub replace_turn : MemoryRecord → List MemoryRecord → Option (List MemoryRecord)
replace_turn r [] = none
replace_turn r (e ∷ existing) =
    if text_eq e.turn_id r.turn_id
    then some (r ∷ existing)
    else put_before e (replace_turn r existing)

abbrev pub or_appended :
    MemoryRecord → List MemoryRecord → Option (List MemoryRecord) → List MemoryRecord
or_appended r existing none = existing ++ r ∷ []
or_appended r existing (some updated) = updated

unfoldable pub updated_records : MemoryRecord → List MemoryRecord → List MemoryRecord
updated_records r existing =
    or_appended r existing (if is_empty r.turn_id then none else replace_turn r existing)

-- The last `most` records.
unfoldable pub keep_last : ℤ → List MemoryRecord → List MemoryRecord
keep_last most records =
    if ltb_ℤ most (pos (length records))
    then drop (length records - pos_part most) records
    else records

-- One round of the loop over the scopes.
unfoldable pub save_in_scope :
    MemoryRecord → MemoryScope → InMemoryMemoryStore → InMemoryMemoryStore
save_in_scope r scope s = record s {
  records_by_scope = λ key.
      if text_eq key scope.key
      then keep_last s.max_turns (updated_records r (s.records_by_scope scope.key))
      else s.records_by_scope key;
}

unfoldable pub save_in_scopes :
    MemoryRecord → List MemoryScope → InMemoryMemoryStore → InMemoryMemoryStore
save_in_scopes r [] s = s
save_in_scopes r (scope ∷ scopes) s = save_in_scopes r scopes (save_in_scope r scope s)

unfoldable pub save_turn : MemoryRecord → InMemoryMemoryStore → InMemoryMemoryStore
save_turn r s = save_in_scopes r (memory_record_scopes r) s

unfoldable pub save_turns : List MemoryRecord → InMemoryMemoryStore → InMemoryMemoryStore
save_turns [] s = s
save_turns (r ∷ records) s = save_turns records (save_turn r s)
