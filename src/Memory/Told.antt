-- ===== src/Memory/Told.antt =====
-- Whose turns a turn is told of, in internal/agent/runtime_backends.go.
use agent_server.Prelude.{
  ◌-◌, ◌≡◌, ◌⊎◌, inl, inr, refl, Bool, true, List, [], ◌∷◌, All, All-append, if◌then◌else◌,
  if-cases, is_empty, length, drop, ℤ, pos, pos_part, ltb_ℤ, ◌||◌, arith,
}
use mathlib.Core.List.{Mem, mem-cons_self, mem-cons_of_mem}
use agent_server.Text.{Text, codes, text_eq, trim_space}
use agent_server.Text.Laws.{text_eq_refl}
use agent_server.Memory.{InMemoryMemoryStore, new_in_memory_memory_store, save_turns}
use agent_server.Memory.Scopes.{
  MemoryRecord, MemoryQuery, MemoryScope, memory_query_scopes, memory_record_scopes,
}
use agent_server.Memory.Keys.{has_key}
use agent_server.Memory.Records.{All-drop}
use agent_server.Memory.Saves.{IsTidy, save_turns-IsTidy, new-IsTidy, save_turns-All}
use agent_server.Memory.Context.{
  ChatMessage, MemoryScopedRecords, memory_assistant_text, message_if, record_messages, messages_of,
  recent_messages, available_scopes, context_of, context_from, load_turn_context,
}

-- A record that was saved, that the memory holds under a key of the query, and whose turn has that
-- key.
abbrev pub Shares : List MemoryRecord → InMemoryMemoryStore → MemoryQuery → MemoryRecord → Type 0
Shares saved s q r =
    Mem r saved
    × (key : Text) × (has_key key (memory_query_scopes q) ≡ true)
    × (has_key key (memory_record_scopes r) ≡ true)
    × Mem r (s.records_by_scope key)

-- The message is what the user said in the turn, or what is remembered as the answer.
abbrev pub Tells : MemoryRecord → ChatMessage → Type 0
Tells r m =
    (m.role ≡ codes "user") × (m.content ≡ r.user_text)
    ⊎ (m.role ≡ codes "assistant") × (m.content ≡ memory_assistant_text r)

abbrev pub IsTold : List MemoryRecord → InMemoryMemoryStore → MemoryQuery → ChatMessage → Type 0
IsTold saved s q m = (r : MemoryRecord) × Shares saved s q r × Tells r m

All-map :
    {A : Type 0} (P Q : A → Type 0) (xs : List A) → ((x : A) → P x → Q x) → All P xs → All Q xs
All-map P Q [] f h = tt
All-map P Q (x ∷ xs) f h = (f x h.0, All-map P Q xs f h.1)

All-both :
    {A : Type 0} (P Q : A → Type 0) (xs : List A) → All P xs → All Q xs → All (λ x. P x × Q x) xs
All-both P Q [] h k = tt
All-both P Q (x ∷ xs) h k = ((h.0, k.0), All-both P Q xs h.1 k.1)

-- The records of a list are among them.
All-Mem : {A : Type 0} (xs : List A) → All (λ x. Mem x xs) xs
All-Mem [] = tt
All-Mem (x ∷ xs) = (
  mem-cons_self,
  All-map (λ y. Mem y xs) (λ y. Mem y (x ∷ xs)) xs (λ y m. mem-cons_of_mem x m) (All-Mem xs),
)

or_later : (a b : Bool) → b ≡ true → (a || b) ≡ true
or_later a b h = ground arith

-- Each scope of a list has its key there.
scopes-own : (scopes : List MemoryScope) → All (λ scope. has_key scope.key scopes ≡ true) scopes
scopes-own [] = tt
scopes-own (scope ∷ scopes) = (
  rw (text_eq_refl scope.key) refl,
  All-map (λ other. has_key other.key scopes ≡ true)
      (λ other. has_key other.key (scope ∷ scopes) ≡ true) scopes
      (λ other. or_later (text_eq other.key scope.key) (has_key other.key scopes))
      (scopes-own scopes),
)

module _ (saved : List MemoryRecord) (s : InMemoryMemoryStore) (q : MemoryQuery) where
  record_messages-IsTold :
      (r : MemoryRecord) → Shares saved s q r → All (IsTold saved s q) (record_messages r)
  record_messages-IsTold r h =
      All-append (IsTold saved s q)
        (message_if (is_empty (trim_space r.user_text)) (codes "user") r.user_text) _
        (if-cases {A = List ChatMessage} (All (IsTold saved s q))
          (is_empty (trim_space r.user_text)) [] _ (λ _. tt) (λ _. ((r, h, inl (refl, refl)), tt)))
        (if-cases {A = List ChatMessage} (All (IsTold saved s q))
          (is_empty (memory_assistant_text r)) [] _ (λ _. tt) (λ _. ((r, h, inr (refl, refl)), tt)))

  messages_of-IsTold :
      (records : List MemoryRecord)
      → All (Shares saved s q) records
      → All (IsTold saved s q) (messages_of records)
  messages_of-IsTold [] h = tt
  messages_of-IsTold (r ∷ records) h =
      All-append (IsTold saved s q) (record_messages r) (messages_of records)
        (record_messages-IsTold r h.0) (messages_of-IsTold records h.1)

  recent_messages-IsTold :
      (records : List MemoryRecord)
      → All (Shares saved s q) records
      → All (IsTold saved s q) (recent_messages s records)
  unfolding recent_messages
  recent_messages-IsTold records h =
      messages_of-IsTold
        (if ltb_ℤ (pos (length records)) s.recent_turn_span
          then records
          else drop (length records - pos_part s.recent_turn_span) records)
        (if-cases (All (Shares saved s q)) (ltb_ℤ (pos (length records)) s.recent_turn_span) records
          (drop (length records - pos_part s.recent_turn_span) records) (λ _. h)
          (λ _.
            All-drop (Shares saved s q) (length records - pos_part s.recent_turn_span) records h))

  -- The records of an available scope are of turns that share it with the query.
  available-shared :
      (scopes : List MemoryScope)
      → IsTidy s
      → ((key : Text) → All (λ r. Mem r saved) (s.records_by_scope key))
      → All (λ scope. has_key scope.key (memory_query_scopes q) ≡ true) scopes
      → All (λ a. All (Shares saved s q) a.records) (available_scopes s scopes)
  unfolding available_scopes
  available-shared [] tidy kept h = tt
  available-shared (scope ∷ scopes) tidy kept h =
      let later = available-shared scopes tidy kept h.1 in
      let records = s.records_by_scope scope.key in
      let Own = λ (r : MemoryRecord). has_key scope.key (memory_record_scopes r) ≡ true in
      let Held = λ (r : MemoryRecord). Mem r records in
      let Saved = λ (r : MemoryRecord). Mem r saved in
      if-cases {A = List MemoryScopedRecords} (All (λ a. All (Shares saved s q) a.records))
        (is_empty records) (available_scopes s scopes)
        (record { scope = scope; records = records } ∷ available_scopes s scopes) (λ _. later)
        (λ _. (
          All-map (λ r. Saved r × (Own r × Held r)) (Shares saved s q) records
              (λ r k. (k.0, scope.key, h.0, k.1.0, k.1.1))
              (All-both Saved (λ r. Own r × Held r) records (kept scope.key)
                (All-both Own Held records (tidy.kept scope.key).theirs (All-Mem records))),
          later,
        ))

  module _ (quote_text : Text → Text) where
    context_of-IsTold :
        (available : List MemoryScopedRecords) (scope : MemoryScope) (records : List MemoryRecord)
        → All (Shares saved s q) records
        → All
            (IsTold saved s q)
            (context_from quote_text s available
              (record { scope = scope; records = records } ∷ [])).recent_messages
    unfolding context_of
    context_of-IsTold available scope [] h = tt
    context_of-IsTold available scope (r ∷ records) h = recent_messages-IsTold (r ∷ records) h

    context_from-IsTold :
        (available rest : List MemoryScopedRecords)
        → All (λ a. All (Shares saved s q) a.records) rest
        → All (IsTold saved s q) (context_from quote_text s available rest).recent_messages
    context_from-IsTold available [] h = tt
    context_from-IsTold available (primary ∷ rest) h =
        context_of-IsTold available primary.scope primary.records h.0

nothing_held :
    (P : MemoryRecord → Type 0) (max_turns : ℤ) (key : Text)
    → All P ((new_in_memory_memory_store max_turns).records_by_scope key)
unfolding new_in_memory_memory_store
nothing_held P max_turns key = tt

-- Whatever was saved in a new memory: each message that a turn is told of comes from a record that was
-- saved, that the memory still holds under a key of a session, user, device, room or household which
-- the query names, and that names the same one; the message is what the user said in that turn, or
-- what is remembered as its answer.
pub load-IsTold :
    (quote_text : Text → Text) (max_turns : ℤ) (records : List MemoryRecord) (q : MemoryQuery)
    → let s = save_turns records (new_in_memory_memory_store max_turns) in
      All (IsTold records s q) (load_turn_context quote_text q s).recent_messages
unfolding load_turn_context
load-IsTold quote_text max_turns records q =
    let s = save_turns records (new_in_memory_memory_store max_turns) in
    let available = available_scopes s (memory_query_scopes q) in
    context_from-IsTold records s q quote_text available available (
      available-shared records s q (memory_query_scopes q)
        (save_turns-IsTidy records (new_in_memory_memory_store max_turns) (new-IsTidy max_turns))
        (save_turns-All (λ r. Mem r records) records (new_in_memory_memory_store max_turns)
          (nothing_held (λ r. Mem r records) max_turns) (All-Mem records))
        (scopes-own (memory_query_scopes q)))
