-- ===== src/Agent/Resumed.antt =====
-- A turn that asks for the rest of the last reply, from the outcome of the playback in
-- internal/voice/session_orchestrator.go to StreamTurn of internal/agent/llm_executor.go.
use agent_server.Prelude.{
  ◌≡◌, refl, Bool, true, false, not, ◌||◌, if-cases, List, [], ◌∷◌, is_empty, Option, none, some,
  Result, ok, &&_parts,
}
use agent_server.Text.{Text, trim_space}
use agent_server.Clock.{Time}
use agent_server.Playback.State.{PlaybackOutcome}
use agent_server.Playback.Context.{playback_outcome_context_metadata}
use agent_server.Memory.Context.{MemoryContext}
use agent_server.Agent.Chat.{TurnDelta, TurnOutput, TurnInput, turn_output_from_text}
use agent_server.Agent.FollowUp.{
  deterministic_playback_follow_up_text, is_playback_continue_intent,
  normalize_playback_follow_up_text,
}
use agent_server.Agent.Continued.{follow_up-continues}
use agent_server.Agent.Prewarm.{Candidate, consume_match}
use agent_server.Agent.Bootstrap.{
  Letters, is_none, parse_bootstrap_memory_command, parse_bootstrap_tool_command,
  should_persist_turn, stream_bootstrap_output, emit_bootstrap_text_output,
}
use agent_server.Agent.{World, Outcome, emit, text_of}
use agent_server.Agent.Turns.{
  Prepared, Executor, no_progress, request_of, context_for, stream_llm_output, stream_turn,
}

none_of {ℓ} : {A : Type ℓ} (o : Option A) → is_none o ≡ true → o ≡ none
none_of none h = refl
none_of (some a) h = cc

module _ {ℓ} {E : Type ℓ} (l : Letters) (w : World E) (registry : Result E (List Text))
    (has_model : Bool) (quote_text : Text → Text) (system_prompt : TurnInput → Text)
    (default_prompt : Text) where
  bootstrap-answers :
      (input : TurnInput) (trimmed text : Text) (loaded : Result E MemoryContext)
      → should_persist_turn trimmed ≡ true
      → deterministic_playback_follow_up_text trimmed input.metadata ≡ some text
      → stream_bootstrap_output l w registry input trimmed loaded no_progress
        ≡ emit_bootstrap_text_output l w registry trimmed text no_progress
  unfolding stream_bootstrap_output should_persist_turn
  bootstrap-answers input trimmed text loaded persists answer =
      let (no_memory, no_tool) =
        &&_parts (is_none (parse_bootstrap_memory_command trimmed))
          (is_none (parse_bootstrap_tool_command trimmed)) persists in
      rw
        (
          none_of (parse_bootstrap_memory_command trimmed) no_memory,
          none_of (parse_bootstrap_tool_command trimmed) no_tool,
          answer,
        )
        refl

  llm_output-answers :
      (candidate : Option (Candidate Prepared)) (input : TurnInput) (trimmed text : Text)
      (context : MemoryContext)
      → should_persist_turn trimmed ≡ true
      → deterministic_playback_follow_up_text trimmed input.metadata ≡ some text
      → stream_llm_output l w registry has_model quote_text system_prompt default_prompt candidate
          input trimmed context
        ≡ emit_bootstrap_text_output l w registry trimmed text no_progress
  unfolding stream_llm_output
  llm_output-answers candidate input trimmed text context persists answer =
      if-cases {A = Outcome E TurnOutput}
        (λ m. m ≡ emit_bootstrap_text_output l w registry trimmed text no_progress)
        (is_empty trimmed || not has_model || not (should_persist_turn trimmed))
        (stream_bootstrap_output l w registry input trimmed (ok context) no_progress) _
        (λ _. bootstrap-answers input trimmed text (ok context) persists answer)
        (λ _. rw answer refl)

  -- A turn that asks to go on, is no command, and has the metadata of a playback that left a text
  -- unheard that is not blank, emits exactly that text, without the blanks around it, and answers with
  -- it: with a model or without, with a prepared candidate or without, and whatever the model, the tools
  -- and the memory would say, as long as the sink takes the text.
  pub stream_turn-resumes :
      (now : Time) (input : TurnInput) (e : Executor) (o : PlaybackOutcome)
      → ((deltas : List TurnDelta) (d : TurnDelta) → w.sink deltas d ≡ none)
      → input.metadata ≡ playback_outcome_context_metadata o
      → should_persist_turn (trim_space input.user_text) ≡ true
      → is_playback_continue_intent (normalize_playback_follow_up_text (trim_space input.user_text))
        ≡ true
      → is_empty (trim_space o.missed_text) ≡ false
      → (stream_turn l w registry has_model quote_text system_prompt default_prompt now input e).1
        ≡ (
          record { emitted = text_of (trim_space o.missed_text) ∷ []; output_text = [] },
          ok (turn_output_from_text (trim_space input.user_text) (trim_space o.missed_text)),
        )
  unfolding stream_turn emit_bootstrap_text_output emit
  stream_turn-resumes now input e o takes told persists asks missed =
      let trimmed = trim_space input.user_text in
      let found = consume_match now (request_of input trimmed) e.prewarm in
      let answer : deterministic_playback_follow_up_text trimmed input.metadata
          ≡ some (trim_space o.missed_text) =
        rw told (follow_up-continues trimmed o asks missed) in
      rw
        (llm_output-answers found.1 input trimmed (trim_space o.missed_text)
          (context_for l w registry has_model quote_text system_prompt default_prompt found.1 input
            trimmed e.memory)
          persists answer)
        (rw (takes [] (text_of (trim_space o.missed_text))) refl)
