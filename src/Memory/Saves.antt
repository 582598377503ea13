-- ===== src/Memory/Saves.antt =====
-- What the memory of internal/agent/runtime_backends.go holds after any saves.
use agent_server.Prelude.{
  ◌≡◌, inl, inr, refl, sym, ap, ap₂, ◌∙◌, true, false, Bool-cases, List, [], ◌∷◌, All, if-cases,
  is_empty, length, some, arith, ℤ, pos, ◌≤ℤ◌,
}
use agent_server.Text.{Text}
use agent_server.Memory.{InMemoryMemoryStore, new_in_memory_memory_store, save_turn, save_turns}
use agent_server.Memory.Scopes.{MemoryRecord, memory_record_scopes}
use agent_server.Memory.Keys.{has_key, save_turn_lem}
use agent_server.Memory.Records.{turn_ids, AreOnce, find_turn, kept_update, update_again}
use agent_server.Memory.Kept.{
  kept_update-length, kept_update-AreOnce, kept_update-All, kept_update_found,
}

-- The records of a key: within the limit, no turn twice, and each is of that key.
pub record IsKept (most : ℤ) (key : Text) (records : List MemoryRecord) : Type 0 where
  pub bound : pos (length records) ≤ℤ most
  pub once : AreOnce (turn_ids records)
  pub theirs : All (λ r. has_key key (memory_record_scopes r) ≡ true) records

pub record IsTidy (s : InMemoryMemoryStore) : Type 0 where
  pub room : pos 1 ≤ℤ s.max_turns
  pub kept : (key : Text) → IsKept s.max_turns key (s.records_by_scope key)

pub new-IsTidy : (max_turns : ℤ) → IsTidy (new_in_memory_memory_store max_turns)
unfolding new_in_memory_memory_store
new-IsTidy max_turns = record {
  room = ground arith;
  kept = λ key. record { bound = ground arith; once = tt; theirs = tt };
}

kept_update-IsKept :
    (most : ℤ) (key : Text) (r : MemoryRecord) (existing : List MemoryRecord)
    → pos 1 ≤ℤ most
    → has_key key (memory_record_scopes r) ≡ true
    → IsKept most key existing
    → IsKept most key (kept_update most r existing)
kept_update-IsKept most key r existing room own h = record {
  bound = kept_update-length most r existing room;
  once = kept_update-AreOnce most r existing h.once;
  theirs =
      kept_update-All (λ x. has_key key (memory_record_scopes x) ≡ true) most r existing own
        h.theirs;
}

pub save_turn-IsTidy :
    (r : MemoryRecord) (s : InMemoryMemoryStore) → IsTidy s → IsTidy (save_turn r s)
save_turn-IsTidy r s h = record {
  room = rw ((save_turn_lem r s []).0) h.room;
  kept = λ key.
      rw ((save_turn_lem r s key).0, (save_turn_lem r s key).1)
        (if-cases (IsKept s.max_turns key) (has_key key (memory_record_scopes r))
          (kept_update s.max_turns r (s.records_by_scope key)) (s.records_by_scope key)
          (λ own.
            kept_update-IsKept s.max_turns key r (s.records_by_scope key) h.room own (h.kept key))
          (λ _. h.kept key));
}

pub save_turns-IsTidy :
    (records : List MemoryRecord) (s : InMemoryMemoryStore)
    → IsTidy s
    → IsTidy (save_turns records s)
unfolding save_turns
save_turns-IsTidy [] s h = h
save_turns-IsTidy (r ∷ records) s h =
    save_turns-IsTidy records (save_turn r s) (save_turn-IsTidy r s h)

-- What holds of all the records that are saved holds of all that are remembered.
pub save_turns-All :
    (P : MemoryRecord → Type 0) (records : List MemoryRecord) (s : InMemoryMemoryStore)
    → ((key : Text) → All P (s.records_by_scope key))
    → All P records
    → (key : Text) → All P ((save_turns records s).records_by_scope key)
unfolding save_turns
save_turns-All P [] s h all key = h key
save_turns-All P (r ∷ records) s h all key =
    save_turns-All P records (save_turn r s)
      (λ k. rw ((save_turn_lem r s k).1) (
        if-cases (All P) (has_key k (memory_record_scopes r))
          (kept_update s.max_turns r (s.records_by_scope k)) (s.records_by_scope k)
          (λ _. kept_update-All P s.max_turns r (s.records_by_scope k) all.0 (h k)) (λ _. h k)))
      all.1 key

-- After any saves in a new memory, under every key: there are no more records than the limit; a turn
-- that has an identifier is remembered once; and each record is of a session, user, device, room or
-- household with that key, so that nothing is remembered for another.
pub save_turns-IsKept :
    (max_turns : ℤ) (records : List MemoryRecord) (key : Text)
    → let s = save_turns records (new_in_memory_memory_store max_turns) in
      IsKept s.max_turns key (s.records_by_scope key)
save_turns-IsKept max_turns records key =
    (save_turns-IsTidy records (new_in_memory_memory_store max_turns) (new-IsTidy max_turns)).kept
      key

-- A turn that was saved after any saves is found under each of its keys, with what was saved.
pub save_turn-find :
    (max_turns : ℤ) (records : List MemoryRecord) (r : MemoryRecord) (key : Text)
    → is_empty r.turn_id ≡ false
    → has_key key (memory_record_scopes r) ≡ true
    → find_turn r.turn_id (
        (save_turn r (save_turns records (new_in_memory_memory_store max_turns))).records_by_scope
          key)
      ≡ some r
save_turn-find max_turns records r key named own =
    let s = save_turns records (new_in_memory_memory_store max_turns) in
    let tidy : IsTidy s =
      save_turns-IsTidy records (new_in_memory_memory_store max_turns) (new-IsTidy max_turns) in
    rw ((save_turn_lem r s key).1, own)
      (kept_update_found s.max_turns r (s.records_by_scope key) tidy.room (tidy.kept key).bound
        named)

saved_own :
    (r : MemoryRecord) (s : InMemoryMemoryStore) (key : Text)
    → has_key key (memory_record_scopes r) ≡ true
    → (save_turn r s).records_by_scope key ≡ kept_update s.max_turns r (s.records_by_scope key)
saved_own r s key own = (save_turn_lem r s key).1 ∙ rw own refl

saved_other :
    (r : MemoryRecord) (s : InMemoryMemoryStore) (key : Text)
    → has_key key (memory_record_scopes r) ≡ false
    → (save_turn r s).records_by_scope key ≡ s.records_by_scope key
saved_other r s key other = (save_turn_lem r s key).1 ∙ rw other refl

again :
    (s : InMemoryMemoryStore) (r r' : MemoryRecord) (key : Text)
    → IsTidy s
    → is_empty r'.turn_id ≡ false
    → r.turn_id ≡ r'.turn_id
    → memory_record_scopes r ≡ memory_record_scopes r'
    → (save_turn r' (save_turn r s)).records_by_scope key ≡ (save_turn r' s).records_by_scope key
again s r r' key tidy named e same = elim (Bool-cases (has_key key (memory_record_scopes r'))) [
  | inl own ↦
      saved_own r' (save_turn r s) key own
      ∙ ap₂ (λ most existing. kept_update most r' existing) ((save_turn_lem r s key).0)
          (saved_own r s key (ap (has_key key) same ∙ own))
      ∙ update_again s.max_turns r r' (s.records_by_scope key) tidy.room (tidy.kept key).bound e
          named
      ∙ sym (saved_own r' s key own)
  | inr other ↦
      saved_other r' (save_turn r s) key other
      ∙ saved_other r s key (ap (has_key key) same ∙ other)
      ∙ sym (saved_other r' s key other)
]

-- A turn may be saved again as more of it is known: if two records are of the same turn and have the
-- same scopes, the memory is what it is after the later one alone.
pub save_turn_again :
    (max_turns : ℤ) (records : List MemoryRecord) (r r' : MemoryRecord) (key : Text)
    → is_empty r'.turn_id ≡ false
    → r.turn_id ≡ r'.turn_id
    → memory_record_scopes r ≡ memory_record_scopes r'
    → let s = save_turns records (new_in_memory_memory_store max_turns) in
      (save_turn r' (save_turn r s)).records_by_scope key ≡ (save_turn r' s).records_by_scope key
save_turn_again max_turns records r r' key named e same =
    let s = save_turns records (new_in_memory_memory_store max_turns) in
    again s r r' key
      (save_turns-IsTidy records (new_in_memory_memory_store max_turns) (new-IsTidy max_turns))
      named e same
