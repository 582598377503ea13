-- ===== src/Memory/Tests.antt =====
-- Runs of the memory.
use agent_server.Prelude.{◌≡◌, refl, false, List, [], ◌∷◌, length, All, pos}
use agent_server.Text.{Text, codes, text_eq, trim_space}
use agent_server.Memory.{
  new_in_memory_memory_store, replace_turn, updated_records, keep_last, save_in_scope,
  save_in_scopes, save_turn, save_turns,
}
use agent_server.Memory.Scopes.{
  MemoryRecord, MemoryQuery, memory_query_scopes, scope_for, dedupe_onto, dedupe_memory_scopes,
  memory_scopes, memory_record_scopes,
}
use agent_server.Memory.Context.{
  load_turn_context, recent_messages, context_of, available_scopes, memory_assistant_text,
}
use agent_server.Memory.Told.{IsTold, load-IsTold}
use agent_server.Memory.Saves.{IsKept, save_turns-IsKept, save_turn_again}

abbrev turn_of : Text → Text → Text → MemoryRecord
turn_of turn_id session_id heard_text = record {
  turn_id = turn_id;
  session_id = session_id;
  device_id = [];
  client_type = [];
  user_id = [];
  room_id = [];
  household_id = [];
  user_text = codes "hi";
  response_text = codes "hello there";
  delivered_text = codes "hello there";
  heard_text = heard_text;
  response_interrupted = false;
  response_truncated = false;
  playback_completed = false;
  metadata = [];
}

abbrev some_turns : List MemoryRecord
some_turns =
    turn_of (codes "t1") (codes "a") []
    ∷ turn_of (codes "t2") (codes "a") []
    ∷ turn_of (codes "t1") (codes "a") (codes "hello")
    ∷ turn_of (codes "t3") (codes "a") []
    ∷ []

-- Of three turns the two last are kept, and the first was saved twice before it went.
two_turns :
    length (
      (save_turns some_turns (new_in_memory_memory_store (pos 2))).records_by_scope
        (codes "session:a"))
    ≡ 2
unfolding save_turns new_in_memory_memory_store save_turn save_in_scopes save_in_scope
    memory_record_scopes memory_scopes dedupe_memory_scopes dedupe_onto scope_for trim_space text_eq
    updated_records replace_turn keep_last
two_turns = refl

save_turns-IsKept_example :
    let s = save_turns some_turns (new_in_memory_memory_store (pos 2)) in
    IsKept s.max_turns (codes "session:a") (s.records_by_scope (codes "session:a"))
save_turns-IsKept_example = save_turns-IsKept (pos 2) some_turns (codes "session:a")

save_turn_again_example :
    let s = save_turns some_turns (new_in_memory_memory_store (pos 2)) in
    let r = turn_of (codes "t4") (codes "a") [] in
    let r' = turn_of (codes "t4") (codes "a") (codes "hello") in
    (save_turn r' (save_turn r s)).records_by_scope (codes "session:a")
    ≡ (save_turn r' s).records_by_scope (codes "session:a")
unfolding memory_record_scopes
save_turn_again_example =
    save_turn_again (pos 2) some_turns (turn_of (codes "t4") (codes "a") [])
      (turn_of (codes "t4") (codes "a") (codes "hello")) (codes "session:a") refl refl refl

abbrev query_of : Text → MemoryQuery
query_of session_id = record {
  session_id = session_id;
  device_id = [];
  client_type = [];
  user_id = [];
  room_id = [];
  household_id = [];
  user_text = [];
  metadata = [];
}

-- Of the turn that was heard, both sides are told.
told_messages :
    (load_turn_context
      (λ t. t)
      (query_of (codes " a "))
      (save_turns
        (turn_of (codes "t1") (codes "a") (codes "hello") ∷ [])
        (new_in_memory_memory_store (pos 2)))).recent_messages
    ≡ record { role = codes "user"; content = codes "hi" }
      ∷ record { role = codes "assistant"; content = codes "hello" }
      ∷ []
unfolding load_turn_context context_of available_scopes recent_messages memory_assistant_text
    memory_query_scopes save_turns new_in_memory_memory_store save_turn save_in_scopes save_in_scope
    memory_record_scopes memory_scopes dedupe_memory_scopes dedupe_onto scope_for trim_space text_eq
    updated_records replace_turn keep_last
told_messages = refl

load-IsTold_example :
    let s = save_turns some_turns (new_in_memory_memory_store (pos 2)) in
    All
      (IsTold some_turns s (query_of (codes "a")))
      (load_turn_context (λ t. t) (query_of (codes "a")) s).recent_messages
load-IsTold_example = load-IsTold (λ t. t) (pos 2) some_turns (query_of (codes "a"))
