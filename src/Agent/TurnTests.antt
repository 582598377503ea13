-- ===== src/Agent/TurnTests.antt =====
-- Turns of the executor with its memory.
use agent_server.Prelude.{
  ◌≡◌, refl, true, false, some, none, [], ◌∷◌, is_empty, pos, leb, ok, err, ℕ,
}
use agent_server.Text.{codes, text_eq, trim_space, to_lower, in_set, has_prefix}
use agent_server.Playback.State.{PlaybackOutcome}
use agent_server.Playback.Policy.{
  HeardTextSource, HeardTextConfidence, HeardTextPrecisionTier, HeardTextBoundary,
  InterruptionPolicy,
}
use agent_server.Playback.Context.{playback_outcome_context_metadata}
use agent_server.Memory.{new_in_memory_memory_store, save_turns}
use agent_server.Memory.Keys.{has_key}
use agent_server.Memory.Records.{find_turn}
use agent_server.Memory.Scopes.{
  memory_record_scopes, memory_scopes, dedupe_memory_scopes, dedupe_onto, scope_for,
}
use agent_server.Agent.Chat.{TurnInput, TurnOutput, turn_output_from_text}
use agent_server.Agent.FollowUp.{
  is_playback_continue_intent, normalize_playback_follow_up_text, metadata_at,
}
use agent_server.Agent.Bootstrap.{
  Letters, should_persist_turn, parse_bootstrap_memory_command, parse_bootstrap_tool_command,
  cut_at_blank,
}
use agent_server.Agent.{World, text_of}
use agent_server.Agent.Turns.{
  Executor, build_memory_record, memory_metadata_value, stream_turn, stream_turn-find,
}
use agent_server.Agent.Resumed.{stream_turn-resumes}

abbrev letters : Letters
letters = record { lower = to_lower; is_letter_or_digit = λ c. leb 0x30 c; equal_fold = text_eq }

-- A model that would say something else.
abbrev talker : World ℕ
talker = record {
  sink = λ deltas d. none;
  invoke = λ deltas call. err 7;
  error_text = λ e. [];
  aliases = [];
  is_streaming = false;
  complete = λ messages. err 1;
  stream = λ messages. ([], err 1);
}

abbrev stopped : PlaybackOutcome
stopped = record {
  turn_id = codes "t1";
  delivered_text = codes "今天晴，明天有雨。";
  heard_text = codes "今天晴，";
  missed_text = codes " 明天有雨。";
  resume_anchor = codes "今天晴，";
  heard_text_boundary = HeardTextBoundary.prefix;
  heard_source = HeardTextSource.segment_mark;
  heard_confidence = HeardTextConfidence.high;
  heard_precision_tier = HeardTextPrecisionTier.tier1;
  heard_ratio_percent = pos 44;
  playback_completed = false;
  response_interrupted = true;
  response_truncated = true;
  interruption_policy = InterruptionPolicy.hard_interrupt;
  interruption_reason = [];
  played_duration = pos 0;
  planned_duration = pos 0;
}

abbrev go_on : TurnInput
go_on = record {
  turn_id = codes "t2";
  user_text = codes " Go on! ";
  audio = record { present = false; frames = pos 0; bytes = pos 0 };
  metadata = playback_outcome_context_metadata stopped;
  session_id = codes "s1";
  device_id = codes "d1";
  client_type = codes "rtos";
}

abbrev fresh : Executor
fresh = record { memory = new_in_memory_memory_store (pos 8); prewarm = λ session_id. none }

no_command : should_persist_turn (trim_space go_on.user_text) ≡ true
unfolding should_persist_turn parse_bootstrap_memory_command parse_bootstrap_tool_command trim_space
    to_lower text_eq has_prefix cut_at_blank
no_command = refl

asks_to_go_on :
    is_playback_continue_intent (normalize_playback_follow_up_text (trim_space go_on.user_text))
    ≡ true
unfolding is_playback_continue_intent normalize_playback_follow_up_text text_eq trim_space to_lower
    in_set
asks_to_go_on = refl

tail_missed : is_empty (trim_space stopped.missed_text) ≡ false
unfolding trim_space
tail_missed = refl

stream_turn-resumes_example :
    (stream_turn letters talker (err 3) true (λ t. t) (λ input. []) [] 5 go_on fresh).1 ≡ (
      record { emitted = text_of (trim_space (codes " 明天有雨。")) ∷ []; output_text = [] },
      ok (turn_output_from_text (trim_space (codes " Go on! ")) (trim_space (codes " 明天有雨。"))),
    )
stream_turn-resumes_example =
    stream_turn-resumes letters talker (err 3) true (λ t. t) (λ input. []) [] 5 go_on fresh stopped
      (λ deltas d. refl) refl no_command asks_to_go_on tail_missed

abbrev resumed : TurnOutput
resumed = turn_output_from_text (trim_space (codes " Go on! ")) (trim_space (codes " 明天有雨。"))

own_key :
    has_key
      (codes "session:s1")
      (memory_record_scopes (build_memory_record go_on (trim_space go_on.user_text) resumed.text))
    ≡ true
unfolding memory_record_scopes memory_scopes dedupe_memory_scopes dedupe_onto scope_for trim_space
    text_eq build_memory_record memory_metadata_value metadata_at playback_outcome_context_metadata
own_key = refl

nothing_saved : fresh.memory ≡ save_turns [] (new_in_memory_memory_store (pos 8))
unfolding save_turns
nothing_saved = refl

-- The turn that was resumed is remembered with the text that it resumed.
stream_turn-find_example :
    find_turn (codes "t2") (
      (stream_turn letters talker
          (err 3)
          true
          (λ t. t)
          (λ input. [])
          []
          5
          go_on
          fresh).0.memory.records_by_scope
        (codes "session:s1"))
    ≡ some (build_memory_record go_on (trim_space go_on.user_text) resumed.text)
stream_turn-find_example =
    stream_turn-find letters talker (err 3) true (λ t. t) (λ input. []) [] 5 go_on fresh (pos 8) []
      (record { emitted = text_of (trim_space (codes " 明天有雨。")) ∷ []; output_text = [] }) resumed
      (codes "session:s1") nothing_saved stream_turn-resumes_example no_command refl own_key
