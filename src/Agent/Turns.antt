-- ===== src/Agent/Turns.antt =====
-- A turn of the executor with its memory and its prepared candidates: StreamTurn and streamLLMOutput of
-- internal/agent/llm_executor.go, and internal/agent/memory_context.go. The prompt and the verb %q of
-- package fmt are parameters.
use agent_server.Prelude.{
  ℤ, ◌≡◌, Bool, true, false, not, ◌||◌, List, [], ◌∷◌, ◌++◌, map, if◌then◌else◌, is_empty, Option,
  none, some, Result, ok, err,
}
use agent_server.Text.{Text, codes, trim_space}
use agent_server.Clock.{Time}
use agent_server.Memory.{InMemoryMemoryStore, new_in_memory_memory_store, save_turn, save_turns}
use agent_server.Memory.Keys.{has_key}
use agent_server.Memory.Records.{find_turn}
use agent_server.Memory.Saves.{save_turn-find}
use agent_server.Memory.Scopes.{MemoryRecord, MemoryQuery, memory_record_scopes}
use agent_server.Memory.Context.{MemoryContext, load_turn_context}
use agent_server.Agent.Chat.{ChatMessage, TurnOutput, TurnInput, or_default}
use agent_server.Agent.FollowUp.{metadata_at, deterministic_playback_follow_up_text}
use agent_server.Agent.Hints.{playback_follow_up_messages}
use agent_server.Agent.Prewarm.{Candidate, Request, PrewarmState, consume_match}
use agent_server.Agent.Bootstrap.{
  Letters, should_persist_turn, stream_bootstrap_output, emit_bootstrap_text_output,
}
use agent_server.Agent.{World, Progress, Outcome, run_tool_loop}

-- The first value that is not blank of those under the keys.
unfoldable pub memory_metadata_value : List (Text × Text) → List Text → Text
memory_metadata_value m [] = []
memory_metadata_value m (key ∷ keys) =
    or_default (trim_space (metadata_at key m)) (memory_metadata_value m keys)

abbrev pub user_of : List (Text × Text) → Text
user_of m =
    memory_metadata_value m (codes "memory.user_id" ∷ codes "user_id" ∷ codes "user.id" ∷ [])

abbrev pub room_of : List (Text × Text) → Text
room_of m =
    memory_metadata_value m (codes "memory.room_id" ∷ codes "room_id" ∷ codes "room.id" ∷ [])

abbrev pub household_of : List (Text × Text) → Text
household_of m =
    memory_metadata_value m
      (codes "memory.household_id" ∷ codes "household_id" ∷ codes "household.id" ∷ [])

unfoldable pub build_memory_query : TurnInput → Text → MemoryQuery
build_memory_query input trimmed = record {
  session_id = input.session_id;
  device_id = input.device_id;
  client_type = input.client_type;
  user_id = user_of input.metadata;
  room_id = room_of input.metadata;
  household_id = household_of input.metadata;
  user_text = trimmed;
  metadata = input.metadata;
}

unfoldable pub build_memory_record : TurnInput → Text → Text → MemoryRecord
build_memory_record input trimmed response = record {
  turn_id = input.turn_id;
  session_id = input.session_id;
  device_id = input.device_id;
  client_type = input.client_type;
  user_id = user_of input.metadata;
  room_id = room_of input.metadata;
  household_id = household_of input.metadata;
  user_text = trimmed;
  response_text = response;
  delivered_text = [];
  heard_text = [];
  response_interrupted = false;
  response_truncated = false;
  playback_completed = false;
  metadata = input.metadata;
}

-- What a candidate was prepared with.
pub record Prepared : Type 0 where
  pub system_prompt : Text
  pub memory_context : MemoryContext
  pub aliases : List (Text × Text)

-- The parts of the executor that a turn changes.
pub record Executor : Type 0 where
  pub memory : InMemoryMemoryStore
  pub prewarm : PrewarmState Prepared

abbrev pub request_of : TurnInput → Text → Request
request_of input trimmed = record {
  session_id = input.session_id;
  device_id = input.device_id;
  client_type = input.client_type;
  user_text = trimmed;
  metadata = input.metadata;
}

abbrev pub message_of : Text → Text → ChatMessage
message_of role content = record {
  role = role;
  content = content;
  tool_call_id = [];
  tool_calls = [];
}

-- initialChatMessages, with the prompt that stands for a blank one.
unfoldable pub initial_chat_messages :
    Text → Text → MemoryContext → Text → List (Text × Text) → List ChatMessage
initial_chat_messages default_prompt system_prompt context user_text metadata =
    let summary = trim_space context.summary in
    (message_of (codes "system") (or_default (trim_space system_prompt) default_prompt)
      ∷ (if is_empty summary
          then []
          else message_of (codes "system") (codes "Conversation memory:" ++ 10 ∷ summary) ∷ []))
    ++ map (λ m. message_of m.role m.content) context.recent_messages
    ++ playback_follow_up_messages user_text metadata
    ++ message_of (codes "user") (trim_space user_text) ∷ []

abbrev pub no_progress : Progress
no_progress = record { emitted = []; output_text = [] }

module _ {ℓ} {E : Type ℓ} (l : Letters) (w : World E) (registry : Result E (List Text))
    (has_model : Bool) (quote_text : Text → Text) (system_prompt : TurnInput → Text)
    (default_prompt : Text) where
  -- The aliases and the prompt of the candidate, where there is one.
  abbrev pub loop_with :
      Option (Candidate Prepared) → TurnInput → Text → MemoryContext → Outcome E TurnOutput
  loop_with none input trimmed context =
      run_tool_loop w input trimmed
        (initial_chat_messages default_prompt (system_prompt input) context trimmed input.metadata)
  loop_with (some c) input trimmed context =
      run_tool_loop (record w { aliases = (c.prepared).aliases }) input trimmed
        (initial_chat_messages default_prompt (c.prepared).system_prompt context trimmed
          input.metadata)

  abbrev pub answered_or : Option Text → Text → Outcome E TurnOutput → Outcome E TurnOutput
  answered_or none trimmed otherwise = otherwise
  answered_or (some text) trimmed otherwise =
      emit_bootstrap_text_output l w registry trimmed text no_progress

  unfoldable pub stream_llm_output :
      Option (Candidate Prepared) → TurnInput → Text → MemoryContext → Outcome E TurnOutput
  stream_llm_output candidate input trimmed context =
      if is_empty trimmed || not has_model || not (should_persist_turn trimmed)
      then stream_bootstrap_output l w registry input trimmed (ok context) no_progress
      else answered_or (deterministic_playback_follow_up_text trimmed input.metadata) trimmed
          (loop_with candidate input trimmed context)

  abbrev pub context_for :
      Option (Candidate Prepared) → TurnInput → Text → InMemoryMemoryStore → MemoryContext
  context_for none input trimmed memory =
      load_turn_context quote_text (build_memory_query input trimmed) memory
  context_for (some c) input trimmed memory = (c.prepared).memory_context

  -- The turn is saved when it succeeds, and is no command.
  abbrev pub saved :
      TurnInput → Text → Outcome E TurnOutput → InMemoryMemoryStore → InMemoryMemoryStore
  saved input trimmed (p, err e) memory = memory
  saved input trimmed (p, ok out) memory =
      if should_persist_turn trimmed
      then save_turn (build_memory_record input trimmed out.text) memory
      else memory

  -- What the turn says, and the executor it leaves behind.
  abbrev pub turn_with :
      TurnInput
      → Text
      → PrewarmState Prepared × Option (Candidate Prepared)
      → InMemoryMemoryStore
      → Executor × Outcome E TurnOutput
  turn_with input trimmed (prewarm, candidate) memory =
      let outcome =
        stream_llm_output candidate input trimmed (context_for candidate input trimmed memory) in
      (record { memory = saved input trimmed outcome memory; prewarm = prewarm }, outcome)

  unfoldable pub stream_turn : Time → TurnInput → Executor → Executor × Outcome E TurnOutput
  stream_turn now input e =
      let trimmed = trim_space input.user_text in
      turn_with input trimmed (consume_match now (request_of input trimmed) e.prewarm) e.memory

  -- A turn that succeeds and is no command is found in the memory afterwards, under each of the scopes
  -- it names and with the text that it answered, if it has an id, after any turns that were saved before.
  pub stream_turn-find :
      (now : Time) (input : TurnInput) (e : Executor) (max_turns : ℤ) (records : List MemoryRecord)
      (p : Progress) (out : TurnOutput) (key : Text)
      → e.memory ≡ save_turns records (new_in_memory_memory_store max_turns)
      → (stream_turn now input e).1 ≡ (p, ok out)
      → should_persist_turn (trim_space input.user_text) ≡ true
      → is_empty input.turn_id ≡ false
      → has_key key
          (memory_record_scopes (build_memory_record input (trim_space input.user_text) out.text))
        ≡ true
      → find_turn input.turn_id ((stream_turn now input e).0.memory.records_by_scope key)
        ≡ some (build_memory_record input (trim_space input.user_text) out.text)
  unfolding stream_turn build_memory_record
  stream_turn-find now input e max_turns records p out key before said persists named own =
      rw (said, persists, before)
        (save_turn-find max_turns records
          (build_memory_record input (trim_space input.user_text) out.text) key named own)
