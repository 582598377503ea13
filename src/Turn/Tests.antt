-- ===== src/Turn/Tests.antt =====
-- Runs of the turn detector, and its theorems at concrete inputs.
use agent_server.Prelude.{
  ◌≡◌, ◌⊎◌, refl, true, false, List, [], ◌∷◌, is_empty, pos, ◌≤ℤ◌, add64, wrap, arith,
}
use agent_server.Clock.{milliseconds, time_sub}
use agent_server.Text.{
  Text, codes, trim_space, to_lower, text_eq, has_prefix, trim_left, trim_right, in_set,
}
use agent_server.Text.Laws.{IsPrefix}
use agent_server.Floats.{exact}
use agent_server.Lexicon
use agent_server.Preview.{TurnArbitrationStage, TurnArbitration, zero_arbitration}
use agent_server.Turn
use agent_server.Turn.Waits
use agent_server.Turn.{TurnArbitrationInput}
use agent_server.Turn.Waits.{Config, conservative, SilenceTurnDetectorConfig}
use agent_server.Turn.Stages.{recompute-wait_bounds, arbitrate-blank}
use agent_server.Turn.Unfinished.{arbitrate-unfinished}
use agent_server.Turn.Stable
use agent_server.Turn.Stable.{
  update-begins_partial, update-agreed, update-final, longest_common_prefix_lem,
}
use agent_server.Turn.Detector
use agent_server.Turn.Detector.{SilenceTurnDetector, TranscriptionDelta, TranscriptionDeltaKind}
use agent_server.Turn.Latch.{
  Event, audio, delta, advance, advance_all, commit_suggestion_persists, first_commit_needs,
}

abbrev cfg : SilenceTurnDetectorConfig Text
cfg = record {
  min_audio_ms = pos 0;
  silence_ms = pos 500;
  lexical_endpoint_mode = codes "";
  incomplete_hold_ms = pos 300;
  endpoint_hint_silence_ms = pos 0;
}

abbrev heard : TranscriptionDelta
heard = record {
  kind = TranscriptionDeltaKind.partial;
  text = codes "open it";
  endpoint_reason = codes "";
}

-- Half a second of speech at the second 1, and a partial.
abbrev events : List Event
events = audio 1000000000 (pos 16000) ∷ delta 1000000000 heard ∷ delta 1100000000 heard ∷ []

abbrev listening : SilenceTurnDetector
listening = advance_all exact events (Detector.new_silence_turn_detector cfg (pos 16000) (pos 1))

shown_at_once : Detector.shows_nothing listening ≡ false
unfolding advance_all advance Detector.observe_text Stable.update_stable_prefix trim_space text_eq
    Stable.repeated_partial Detector.new_silence_turn_detector
shown_at_once = refl

-- 16000 bytes are 500 milliseconds, and 500 milliseconds of silence are enough for a full command.
suggests : (Detector.snapshot exact listening 1500000000).1.commit_suggested ≡ true
unfolding advance_all advance Detector.observe_text Stable.update_stable_prefix trim_space text_eq
    Stable.repeated_partial Detector.new_silence_turn_detector Detector.snapshot
    Detector.arbitration_input Turn.arbitrate Turn.arbitration_base Turn.recompute_turn_arbitration
    Turn.total_wait Turn.rule_adjust_ms Waits.clamp_int Waits.duration_ms
    Waits.pcm16_audio_duration_ms Waits.preview_punctuation_adjust_ms
    Waits.new_multi_signal_turn_arbitrator add64 wrap time_sub Detector.base_wait_for_partial
    Detector.stable_prefix_duration milliseconds Waits.preview_text_stability_ratio
    Turn.prewarm_rules Turn.draft_rules Turn.arbitration_reason
    Lexicon.preview_utterance_completeness Lexicon.analyze_utterance_completeness
    Lexicon.first_non_empty Lexicon.looks_correction_pending Lexicon.looks_lexically_complete
    Lexicon.infer_lexical_task_family Lexicon.looks_like_backchannel Lexicon.matches_any_value
    Lexicon.looks_like_takeover_lexicon Lexicon.looks_question_closure Lexicon.matches_any_suffix
    Lexicon.has_any_prefix to_lower in_set trim_left trim_right Turn.stage_of Waits.hold_text
    Lexicon.task_family_requires_slot_readiness Lexicon.rune_at_end has_prefix
suggests = refl

still_shown :
    Detector.shows_nothing (
      advance_all exact
        (audio 1550000000 (pos 640) ∷ [])
        (Detector.snapshot exact listening 1500000000).0)
    ≡ false
unfolding advance_all advance Detector.observe_text Stable.update_stable_prefix trim_space text_eq
    Stable.repeated_partial Detector.new_silence_turn_detector Detector.snapshot
    Detector.arbitration_input Turn.arbitrate Turn.arbitration_base Turn.recompute_turn_arbitration
    Turn.total_wait Turn.rule_adjust_ms Waits.clamp_int Waits.duration_ms
    Waits.pcm16_audio_duration_ms Waits.preview_punctuation_adjust_ms
    Waits.new_multi_signal_turn_arbitrator add64 wrap time_sub Detector.base_wait_for_partial
    Detector.stable_prefix_duration milliseconds Waits.preview_text_stability_ratio
    Turn.prewarm_rules Turn.draft_rules Turn.arbitration_reason
    Lexicon.preview_utterance_completeness Lexicon.analyze_utterance_completeness
    Lexicon.first_non_empty Lexicon.looks_correction_pending Lexicon.looks_lexically_complete
    Lexicon.infer_lexical_task_family Lexicon.looks_like_backchannel Lexicon.matches_any_value
    Lexicon.looks_like_takeover_lexicon Lexicon.looks_question_closure Lexicon.matches_any_suffix
    Lexicon.has_any_prefix to_lower in_set trim_left trim_right Turn.stage_of Waits.hold_text
    Lexicon.task_family_requires_slot_readiness Lexicon.rune_at_end has_prefix
still_shown = refl

commit_suggestion_persists_example :
    let d' =
      advance_all exact
        (audio 1550000000 (pos 640) ∷ [])
        (Detector.snapshot exact listening 1500000000).0 in
    ((Detector.snapshot exact d' 1560000000).1.commit_suggested ≡ true)
    × ((Detector.snapshot exact d' 1560000000).1.arbitration.stage
        ≡ TurnArbitrationStage.accept_now)
commit_suggestion_persists_example =
    commit_suggestion_persists exact listening 1500000000 1560000000
      (audio 1550000000 (pos 640) ∷ []) suggests still_shown

not_latched : listening.commit_suggested ≡ false
unfolding advance_all advance Detector.observe_text Detector.new_silence_turn_detector
not_latched = refl

first_commit_needs_example :
    (Detector.shows_nothing listening ≡ false)
    × (Waits.positive_or listening.config.min_audio_ms (pos 320)
        ≤ℤ Waits.pcm16_audio_duration_ms listening.audio_bytes listening.sample_rate_hz
            listening.channels)
    × (pos 120 ≤ℤ Waits.duration_ms (time_sub 1500000000 listening.last_audio_at))
first_commit_needs_example = first_commit_needs exact listening 1500000000 not_latched suggests

abbrev quiet : TurnArbitration exact
quiet = record (zero_arbitration exact) {
  audio_ms = pos 500;
  silence_ms = pos 600;
  base_wait_ms = pos 480;
}

abbrev quiet_result : TurnArbitration exact
quiet_result = Turn.recompute_turn_arbitration [] (codes "hi") quiet

quiet_accepts : quiet_result.accept_now ≡ true
unfolding Turn.recompute_turn_arbitration Turn.total_wait Waits.clamp_int zero_arbitration add64
    wrap Lexicon.first_non_empty trim_space
quiet_accepts = refl

recompute-wait_bounds_example :
    (pos 120 ≤ℤ quiet_result.effective_wait_ms)
    × (quiet_result.effective_wait_ms ≤ℤ pos 900)
    × (quiet_result.required_silence_ms ≡ quiet_result.effective_wait_ms)
recompute-wait_bounds_example = recompute-wait_bounds [] (codes "hi") quiet

abbrev settled_cfg : Config
settled_cfg = record {
  min_audio_ms = pos 320;
  silence_ms = pos 500;
  lexical_endpoint_mode = conservative;
  incomplete_hold_ms = pos 300;
  endpoint_hint_silence_ms = pos 160;
}

abbrev unfinished : TurnArbitrationInput
unfinished = record {
  partial_text = codes "open it and";
  stable_prefix = [];
  audio_ms = pos 500;
  silence = pos 600000000;
  base_wait = pos 500000000;
  stable_for = pos 0;
  endpoint_reason = [];
  utterance_complete = false;
}

has_text : is_empty (trim_space unfinished.partial_text) ≡ false
unfolding trim_space
has_text = refl

not_complete : (Lexicon.analyze_utterance_completeness unfinished.partial_text).complete ≡ false
unfolding Lexicon.analyze_utterance_completeness Lexicon.looks_correction_pending
    Lexicon.looks_lexically_complete trim_space
not_complete = refl

base_500 : Waits.duration_ms unfinished.base_wait ≡ pos 500
unfolding Waits.duration_ms
base_500 = refl

arbitrate-unfinished_example :
    let a = Turn.arbitrate exact settled_cfg unfinished in
    (pos 800 ≤ℤ a.effective_wait_ms)
    × (a.required_silence_ms ≡ a.effective_wait_ms)
    × ((a.accept_now ≡ false) ⊎ (pos 800 ≤ℤ Waits.duration_ms unfinished.silence))
    × ((a.accept_candidate ≡ false)
        ⊎ (pos 800
            ≤ℤ add64
                (Waits.duration_ms unfinished.silence)
                Waits.default_turn_detector_accept_lead_ms))
arbitrate-unfinished_example =
    arbitrate-unfinished exact settled_cfg unfinished refl has_text refl not_complete base_500 refl
      (omega arith) (omega arith) (omega arith)

abbrev grown : Text
grown = Stable.update_stable_prefix (codes "turn o") (codes "turn") (codes "turn off") false

differ : text_eq (trim_space (codes "turn o")) (trim_space (codes "turn off")) ≡ false
unfolding text_eq trim_space
differ = refl

update-agreed_example :
    (grown ≡ trim_space (codes "turn"))
    ⊎ (IsPrefix grown (trim_space (codes "turn o"))
        × IsPrefix grown (trim_space (codes "turn off"))
        × IsPrefix (trim_space (codes "turn")) grown)
update-agreed_example =
    update-agreed (codes "turn o") (codes "turn") (codes "turn off") false refl differ

abbrev silent : TurnArbitrationInput
silent = record unfinished { partial_text = codes "  " }

arbitrate-blank_example :
    let verdict = Turn.arbitrate exact settled_cfg silent in
    (verdict.stage ≡ TurnArbitrationStage.preview_only)
    × (verdict.accept_now ≡ false)
    × (verdict.accept_candidate ≡ false)
    × (verdict.prewarm_allowed ≡ false)
    × (verdict.draft_allowed ≡ false)
arbitrate-blank_example = arbitrate-blank exact settled_cfg silent blank
  where
    blank : is_empty (trim_space (codes "  ")) ≡ true
    blank = unfold trim_space trim_left trim_right in refl
