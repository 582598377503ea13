-- ===== src/Speech/RunTests.antt =====
-- A run of the goroutines that speak a reply.
use agent_server.Prelude.{
  ◌≡◌, ◌⊎◌, ◌≤◌, refl, true, false, Bool, List, [], ◌∷◌, ◌++◌, none, some, pos, arith, length,
  is_empty, wrap,
}
use agent_server.Text.{codes, trim_space, is_space}
use agent_server.Lexicon.{rune_at_end}
use agent_server.Speech.{
  SpeechPlanner, new_speech_planner, finalize_text_clauses, drain_clauses, drain_loop,
  planner_remaining_tail, common_length, flush_rest,
}
use agent_server.Speech.Boundary.{
  SpeechPlannerConfig, normalize_speech_planner_config, next_planned_speech_segment,
  planned_speech_boundary,
}
use agent_server.Speech.Clause.{
  PlannedSpeechClause, final_flush, final_fall, next_planned_speech_clause, clause_of_segment,
  classify_planned_speech_clause, classify_speech_clause_boundary, looks_like_ack_lead_clause,
  playback_segment_for_clause, estimate_planned_speech_duration, add_pauses,
}
use agent_server.Speech.Synthesis.{
  PlannedSpeechSynthesis, idle, stopped, holding, new_planned_speech_synthesis, Run, here, step,
  finalize, finalized, prepare, send, synthesize, hand_over, drained, next_segment, enqueue_clause,
  resolve_start, tidied, finish, close_queue, load_next_result, wait_audio_start,
}
use agent_server.Speech.Queue.{segments, in_flight}
use agent_server.Speech.Channels.{Run-order, Run-complete}
use agent_server.Speech.Start.{wait_audio_start_lem}

abbrev default_config : SpeechPlannerConfig
default_config = record { enabled = true; min_chunk_runes = pos 0; target_chunk_runes = pos 0 }

-- A reply of one clause, from its final text to the end of the worker.
abbrev all_voiced : PlannedSpeechClause → Bool
all_voiced c = true

abbrev only_clause : PlannedSpeechClause
only_clause = record {
  index = 0;
  text = codes "好";
  boundary_kind = final_flush;
  prosody_hint = final_fall;
  can_start_before_finalized = false;
  estimated_duration = pos 110000000;
}

abbrev planner_done : SpeechPlanner
planner_done = record {
  cfg = record { enabled = true; min_chunk_runes = pos 6; target_chunk_runes = pos 24 };
  observed = codes "好";
  pending = [];
  next_clause_index = 1;
}

finalized_text :
    finalize_text_clauses (codes "好") (new_speech_planner default_config)
    ≡ some (planner_done, only_clause ∷ [])
unfolding new_speech_planner normalize_speech_planner_config drain_clauses drain_loop
    next_planned_speech_clause next_planned_speech_segment planned_speech_boundary clause_of_segment
    classify_planned_speech_clause classify_speech_clause_boundary looks_like_ack_lead_clause
    estimate_planned_speech_duration trim_space finalize_text_clauses flush_rest
    planner_remaining_tail common_length wrap rune_at_end add_pauses
finalized_text = refl

abbrev at_start : PlannedSpeechSynthesis
at_start = new_planned_speech_synthesis default_config

abbrev at_outgoing : PlannedSpeechSynthesis
at_outgoing = record at_start {
  planner = planner_done;
  outgoing = only_clause ∷ [];
  finalizing = true;
}

abbrev at_waiting : PlannedSpeechSynthesis
at_waiting = enqueue_clause only_clause (record at_outgoing { outgoing = [] })

abbrev at_queue : PlannedSpeechSynthesis
at_queue = record at_waiting { waiting = none; queue = at_waiting.queue ++ only_clause ∷ [] }

abbrev at_closed : PlannedSpeechSynthesis
at_closed = finish at_queue

abbrev at_holding : PlannedSpeechSynthesis
at_holding = record at_closed { queue = []; worker = holding only_clause }

abbrev at_result : PlannedSpeechSynthesis
at_result = record at_holding {
  worker = idle;
  results = playback_segment_for_clause only_clause ∷ [];
}

abbrev at_current : PlannedSpeechSynthesis
at_current =
    load_next_result (playback_segment_for_clause only_clause) []
      (record at_result { segmented = true })

abbrev at_end : PlannedSpeechSynthesis
at_end = record at_current { worker = stopped }

run_to_result : Run all_voiced default_config (only_clause ∷ []) [] at_result
unfolding new_planned_speech_synthesis enqueue_clause resolve_start tidied trim_space is_space
    finish close_queue load_next_result
run_to_result =
    let run1 : Run all_voiced default_config [] [] at_outgoing =
      step here [] [] at_outgoing
        (finalize (codes "好") planner_done (only_clause ∷ []) (refl, refl) refl refl finalized_text
          refl refl refl)
        [] [] refl refl in
    let run2 : Run all_voiced default_config (only_clause ∷ []) [] at_waiting =
      step run1 (only_clause ∷ []) [] at_waiting (prepare only_clause [] refl refl refl refl refl)
        (only_clause ∷ []) [] refl refl in
    let run3 : Run all_voiced default_config (only_clause ∷ []) [] at_queue =
      step run2 [] [] at_queue (send only_clause refl (omega arith) refl refl refl)
        (only_clause ∷ []) [] refl refl in
    let run4 : Run all_voiced default_config (only_clause ∷ []) [] at_closed =
      step run3 [] [] at_closed (finalized (refl, refl) refl refl refl refl) (only_clause ∷ []) []
        refl refl in
    let run5 : Run all_voiced default_config (only_clause ∷ []) [] at_holding =
      step run4 [] [] at_holding (synthesize only_clause [] refl refl refl refl refl)
        (only_clause ∷ []) [] refl refl in
    step run5 [] [] at_result (hand_over only_clause refl refl refl refl refl) (only_clause ∷ []) []
      refl refl

one_clause_run :
    Run all_voiced default_config
      (only_clause ∷ [])
      (playback_segment_for_clause only_clause ∷ [])
      at_end
unfolding new_planned_speech_synthesis enqueue_clause resolve_start tidied trim_space is_space
    finish close_queue load_next_result
one_clause_run =
    let run7 : Run all_voiced default_config (only_clause ∷ [])
        (playback_segment_for_clause only_clause ∷ []) at_current =
      step run_to_result [] (playback_segment_for_clause only_clause ∷ []) at_current
        (next_segment (playback_segment_for_clause only_clause) [] refl refl refl refl refl)
        (only_clause ∷ []) (playback_segment_for_clause only_clause ∷ []) refl refl in
    step run7 [] [] at_end (drained refl refl refl refl refl refl) (only_clause ∷ [])
      (playback_segment_for_clause only_clause ∷ []) refl refl

Run-order_example :
    (length at_result.queue ≤ 4)
    × (length at_result.results ≤ 1)
    × ((at_result.cancelled ≡ true)
        ⊎ (segments all_voiced (only_clause ∷ []) ≡ [] ++ in_flight all_voiced at_result))
unfolding new_planned_speech_synthesis enqueue_clause resolve_start trim_space finish close_queue
Run-order_example =
    Run-order all_voiced default_config (only_clause ∷ []) [] at_result run_to_result

Run-complete_example :
    (playback_segment_for_clause only_clause ∷ [] ≡ segments all_voiced (only_clause ∷ []))
    × (at_end.outgoing ≡ [])
    × (at_end.waiting ≡ none)
unfolding new_planned_speech_synthesis enqueue_clause resolve_start tidied trim_space is_space
    finish close_queue load_next_result
Run-complete_example =
    Run-complete all_voiced default_config (only_clause ∷ [])
      (playback_segment_for_clause only_clause ∷ []) at_end one_clause_run refl refl refl

wait_audio_start_lem_example :
    (wait_audio_start at_end ≡ none) × (only_clause ∷ [] ≡ [])
    ⊎ (wait_audio_start at_end ≡ some none) × (only_clause ∷ [] ≡ []) × (at_end.queue_closed ≡ true)
    ⊎ (c : PlannedSpeechClause) × (clauses : List PlannedSpeechClause) × (only_clause ∷ []
        ≡ c ∷ clauses)
      × (wait_audio_start at_end ≡ some (some c.text))
      × (is_empty c.text ≡ false)
wait_audio_start_lem_example =
    wait_audio_start_lem all_voiced default_config (only_clause ∷ [])
      (playback_segment_for_clause only_clause ∷ []) at_end one_clause_run
