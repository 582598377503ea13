-- ===== src/Speech/Tests.antt =====
-- Runs of the speech planner.
use agent_server.Prelude.{
  All, ◌≡◌, ◌⊎◌, refl, true, false, List, [], ◌∷◌, ◌++◌, map, Option, none, some, ℕ, zero, suc, pos,
  ◌≤ℤ◌, ◌<ℤ◌, arith, length, wrap,
}
use mathlib.Core.Option
use agent_server.Text.{Text, codes, trim_space, is_space}
use agent_server.Lexicon.{rune_at_end}
use agent_server.Speech.{
  SpeechPlanner, Planned, new_speech_planner, observe_deltas, observe_text_delta_clauses,
  speak_reply, finalize_text_clauses, drain_clauses, drain_loop, planner_remaining_tail,
  common_length, flush_rest,
}
use agent_server.Speech.Boundary.{
  SpeechPlannerConfig, normalize_speech_planner_config, next_planned_speech_segment,
  planned_speech_boundary,
}
use agent_server.Speech.Clause.{
  PlannedSpeechClause, next_planned_speech_clause, clause_of_segment,
  classify_planned_speech_clause, classify_speech_clause_boundary, looks_like_ack_lead_clause,
  playback_segment_for_clause, estimate_planned_speech_duration,
}
use agent_server.Speech.Segment.{solid}
use agent_server.Speech.Drain.{spoken, AreNumbered, EndsOnce}
use agent_server.Speech.Spoken.{speak_reply_complete, HasText}
use agent_server.Speech.Final.{
  speak_reply-final, blank_delta_repeats, leading_blank_repeats, finalize-EndsOnce,
}
use agent_server.Speech.Prompt.{observe_deltas_prompt}
use agent_server.Speech.Cut.{planned_speech_boundary_bounds}

abbrev default_config : SpeechPlannerConfig
default_config = record { enabled = true; min_chunk_runes = pos 0; target_chunk_runes = pos 0 }

abbrev texts : Option Planned → List Text
texts none = []
texts (some (p, clauses)) = map (λ c. c.text) clauses

two_clauses :
    texts
      (speak_reply default_config (codes "好的，马上" ∷ codes "为您打开。还" ∷ []) (codes "好的，马上为您打开。还有吗？"))
    ≡ codes "好的，马上为您打开。" ∷ codes "还有吗？" ∷ []
unfolding speak_reply new_speech_planner normalize_speech_planner_config observe_deltas
    observe_text_delta_clauses drain_clauses drain_loop next_planned_speech_clause
    next_planned_speech_segment planned_speech_boundary clause_of_segment
    classify_planned_speech_clause classify_speech_clause_boundary looks_like_ack_lead_clause
    estimate_planned_speech_duration trim_space finalize_text_clauses flush_rest
    planner_remaining_tail common_length wrap
two_clauses = refl

abbrev letters : ℕ → Text
letters zero = []
letters (suc n) = b'a' ∷ letters n

abbrev first_clause : Option Planned → Option PlannedSpeechClause
first_clause none = none
first_clause (some (p, [])) = none
first_clause (some (p, c ∷ clauses)) = some c

-- A text of the target's length with no boundary in it is cut off whole while more may come, and is
-- marked as the last segment of the reply.
live_final_flush :
    Option.map
      (λ c. (playback_segment_for_clause c).is_last_segment)
      (first_clause (observe_text_delta_clauses (letters 24) (new_speech_planner default_config)))
    ≡ some true
unfolding observe_text_delta_clauses new_speech_planner normalize_speech_planner_config
    drain_clauses drain_loop next_planned_speech_clause next_planned_speech_segment
    planned_speech_boundary clause_of_segment classify_planned_speech_clause
    classify_speech_clause_boundary playback_segment_for_clause looks_like_ack_lead_clause
    estimate_planned_speech_duration trim_space wrap rune_at_end
live_final_flush = refl

-- The blank between two deltas is lost where it ends the first.
glued_words :
    texts (speak_reply default_config (codes "hello " ∷ codes "world" ∷ []) (codes "hello world"))
    ≡ codes "helloworld" ∷ []
unfolding speak_reply new_speech_planner normalize_speech_planner_config observe_deltas
    observe_text_delta_clauses drain_clauses drain_loop next_planned_speech_clause
    next_planned_speech_segment planned_speech_boundary clause_of_segment
    classify_planned_speech_clause classify_speech_clause_boundary looks_like_ack_lead_clause
    estimate_planned_speech_duration trim_space finalize_text_clauses flush_rest
    planner_remaining_tail common_length wrap
glued_words = refl

planned_speech_boundary_bounds_example :
    let live =
      planned_speech_boundary
        (normalize_speech_planner_config default_config)
        false
        (codes "好，的。") in
    let flushed =
      planned_speech_boundary
        (normalize_speech_planner_config default_config)
        true
        (codes "好，的。") in
    (pos 0 ≤ℤ live)
    × (live ≤ℤ pos 4)
    × ((pos 6 ≤ℤ live) ⊎ (live ≡ pos 0) × (pos 4 <ℤ pos 24))
    × (pos 1 ≤ℤ flushed)
    × (flushed ≤ℤ pos 4)
unfolding normalize_speech_planner_config
planned_speech_boundary_bounds_example =
    planned_speech_boundary_bounds (normalize_speech_planner_config default_config) 22909
      (codes "，的。") (omega arith) (omega arith)

speak_reply_complete_example :
    (p : SpeechPlanner) × (clauses : List PlannedSpeechClause) × (speak_reply default_config
        (codes "ab " ∷ codes "c" ∷ [])
        (codes "ab cd")
      ≡ some (p, clauses))
    × (spoken clauses
        ≡ codes "abc" ++ solid (planner_remaining_tail (codes "ab c") (codes "ab cd")))
    × AreNumbered 0 clauses
    × All HasText clauses
    × (p.next_clause_index ≡ length clauses)
    × (p.pending ≡ [])
unfolding trim_space is_space
speak_reply_complete_example =
    speak_reply_complete default_config (codes "ab " ∷ codes "c" ∷ []) (codes "ab cd")

speak_reply-final_example :
    (p : SpeechPlanner) × (clauses : List PlannedSpeechClause) × (speak_reply default_config
        (codes "ab " ∷ codes "c" ∷ [])
        (codes "ab cd")
      ≡ some (p, clauses))
    × (spoken clauses ≡ codes "abcd")
unfolding trim_space is_space
speak_reply-final_example =
    speak_reply-final default_config (codes "ab " ∷ codes "c" ∷ []) (codes "ab cd") (codes "d") refl

blank_delta_repeats_example :
    (p : SpeechPlanner) × (clauses : List PlannedSpeechClause) × (speak_reply default_config
        (codes "one" ∷ codes " " ∷ codes "two" ∷ [])
        (codes "one two")
      ≡ some (p, clauses))
    × (spoken clauses ≡ codes "onetwotwo")
unfolding trim_space is_space
blank_delta_repeats_example =
    blank_delta_repeats default_config (codes "one") (codes " ") b't' (codes "wo") refl refl refl
      refl

finalize-EndsOnce_example :
    (p : SpeechPlanner) × (clauses : List PlannedSpeechClause) × (finalize_text_clauses
        (codes "hi. you")
        (new_speech_planner default_config)
      ≡ some (p, clauses))
    × (p.pending ≡ [])
    × (spoken clauses ≡ codes "hi.you")
    × EndsOnce clauses
unfolding new_speech_planner planner_remaining_tail trim_space is_space
finalize-EndsOnce_example = finalize-EndsOnce (codes "hi. you") (new_speech_planner default_config)

observe_deltas_prompt_example :
    (p : SpeechPlanner) × (clauses : List PlannedSpeechClause) × (observe_deltas
        (letters 30 ∷ [])
        (new_speech_planner default_config, [])
      ≡ some (p, clauses))
    × (pos (length p.pending) <ℤ pos 24)
unfolding normalize_speech_planner_config
observe_deltas_prompt_example = observe_deltas_prompt default_config (letters 30 ∷ []) (omega arith)

leading_blank_repeats_example :
    (p : SpeechPlanner) × (clauses : List PlannedSpeechClause) × (speak_reply default_config
        (codes " Hello." ∷ codes " I am" ∷ codes " here. " ∷ [])
        (codes "Hello. I am here.")
      ≡ some (p, clauses))
    × (spoken clauses ≡ codes "Hello.Iamhere.Hello.Iamhere.")
unfolding trim_space is_space
leading_blank_repeats_example =
    leading_blank_repeats default_config (codes " ") b'H' (codes "ello.")
      (codes " I am" ∷ codes " here. " ∷ []) refl refl refl
