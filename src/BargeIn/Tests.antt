-- ===== src/BargeIn/Tests.antt =====
-- Runs of the barge-in model, and its theorems at concrete inputs.
use agent_server.Prelude.{
  ◌≡◌, ◌↔◌, ◌<ℤ◌, ◌≤ℤ◌, refl, true, false, ◌||◌, [], is_empty, pos, mul64, wrap, quot, add64,
}
use agent_server.Text.{codes, in_set, trim_space, trim_left, trim_right, to_lower, text_eq}
use agent_server.Floats.{exact, clamp_unit}
use agent_server.Lexicon
use agent_server.Preview.{InputPreview, zero_arbitration}
use agent_server.Playback.Policy.{InterruptionPolicy, is_soft}
use agent_server.Turn.Waits.{pcm16_audio_duration_ms}
use agent_server.BargeIn
use agent_server.BargeIn.{evaluate_barge_in}
use agent_server.BargeIn.Signals
use agent_server.BargeIn.Signals.{BargeInConfig, BargeInDecision}
use agent_server.BargeIn.Directive.{
  playback_directive_for_decision, should_interrupt_output, should_duck_output, directive_lem,
}
use agent_server.BargeIn.Policy.{AcceptsNow, evaluate-accepted, evaluate-backchannel}

abbrev config : BargeInConfig
config = record { min_audio_ms = pos 0; incomplete_hold_ms = pos 0 }

-- Half a second of speech, "停", at the end of which a commit is suggested.
abbrev stop_now : InputPreview exact
stop_now = record {
  partial_text = codes "停";
  stable_prefix = [];
  endpoint_reason = [];
  audio_bytes = pos 16000;
  commit_suggested = true;
  speech_started = true;
  utterance_complete = true;
  arbitration = zero_arbitration exact;
}

-- The same, before.
abbrev stop : InputPreview exact
stop = record stop_now { commit_suggested = false }

accepted : (evaluate_barge_in exact stop_now (pos 16000) (pos 1) config).accepted ≡ true
unfolding evaluate_barge_in BargeIn.decide BargeIn.decide_pending BargeIn.barge_in_accept_reason
    BargeIn.semantic_backchannel_rule BargeIn.semantic_takeover_rule BargeIn.short_ack_rule
    BargeIn.complete_rule BargeIn.accept_now_rule BargeIn.accept_candidate_rule BargeIn.hold_rule
    Signals.signals Signals.base_signals Signals.initial_decision Signals.normalize_barge_in_config
    Signals.barge_in_semantic_ready Signals.barge_in_intrusion_score Signals.barge_in_takeover_score
    Signals.normalize_semantic_intent Signals.semantic_intent_is_takeover
    Signals.normalized_barge_in_turn_stage Signals.max_int Signals.barge_in_backchannel_min_audio_ms
    Signals.barge_in_acoustic_gate_min_audio_ms clamp_unit pcm16_audio_duration_ms zero_arbitration
    Lexicon.first_non_empty Lexicon.looks_like_backchannel Lexicon.looks_like_takeover_lexicon
    Lexicon.looks_lexically_complete trim_space to_lower text_eq trim_left trim_right in_set add64
    wrap quot mul64
accepted = refl

not_yet : (evaluate_barge_in exact stop (pos 16000) (pos 1) config).accepted ≡ false
unfolding evaluate_barge_in BargeIn.decide BargeIn.decide_pending BargeIn.barge_in_accept_reason
    BargeIn.semantic_backchannel_rule BargeIn.semantic_takeover_rule BargeIn.short_ack_rule
    BargeIn.complete_rule BargeIn.accept_now_rule BargeIn.accept_candidate_rule BargeIn.hold_rule
    Signals.signals Signals.base_signals Signals.initial_decision Signals.normalize_barge_in_config
    Signals.barge_in_semantic_ready Signals.barge_in_intrusion_score Signals.barge_in_takeover_score
    Signals.normalize_semantic_intent Signals.semantic_intent_is_takeover
    Signals.normalized_barge_in_turn_stage Signals.max_int Signals.barge_in_backchannel_min_audio_ms
    Signals.barge_in_acoustic_gate_min_audio_ms clamp_unit pcm16_audio_duration_ms zero_arbitration
    Lexicon.first_non_empty Lexicon.looks_like_backchannel Lexicon.looks_like_takeover_lexicon
    Lexicon.looks_lexically_complete trim_space to_lower text_eq trim_left trim_right in_set add64
    wrap quot mul64
not_yet = refl

likely : (evaluate_barge_in exact stop_now (pos 16000) (pos 1) config).backchannel_likely ≡ true
unfolding evaluate_barge_in BargeIn.decide BargeIn.decide_pending BargeIn.barge_in_accept_reason
    BargeIn.semantic_backchannel_rule BargeIn.semantic_takeover_rule BargeIn.short_ack_rule
    BargeIn.complete_rule BargeIn.accept_now_rule BargeIn.accept_candidate_rule BargeIn.hold_rule
    Signals.signals Signals.base_signals Signals.initial_decision Signals.normalize_barge_in_config
    Signals.barge_in_semantic_ready Signals.barge_in_intrusion_score Signals.barge_in_takeover_score
    Signals.normalize_semantic_intent Signals.semantic_intent_is_takeover
    Signals.normalized_barge_in_turn_stage Signals.max_int Signals.barge_in_backchannel_min_audio_ms
    Signals.barge_in_acoustic_gate_min_audio_ms clamp_unit pcm16_audio_duration_ms zero_arbitration
    Lexicon.first_non_empty Lexicon.looks_like_backchannel Lexicon.looks_like_takeover_lexicon
    Lexicon.looks_lexically_complete trim_space to_lower text_eq trim_left trim_right in_set add64
    wrap quot mul64
likely = refl

abbrev outcome : BargeInDecision exact
outcome = evaluate_barge_in exact stop_now (pos 16000) (pos 1) config

evaluate-accepted_example :
    ((outcome.accepted ≡ true) ↔ (outcome.policy ≡ InterruptionPolicy.hard_interrupt))
    × (is_empty outcome.reason ≡ false)
    × (outcome.accepted ≡ true
        → (stop_now.speech_started ≡ true)
          × (pos 0 <ℤ stop_now.audio_bytes)
          × (pos 0 <ℤ pos 16000)
          × (pos 0 <ℤ pos 1))
evaluate-accepted_example = evaluate-accepted exact stop_now (pos 16000) (pos 1) config

evaluate-backchannel_example : AcceptsNow outcome
evaluate-backchannel_example =
    evaluate-backchannel exact stop_now (pos 16000) (pos 1) config likely accepted

directive_lem_example :
    let r = playback_directive_for_decision outcome in
    ((should_interrupt_output r ≡ true) ↔ (outcome.policy ≡ InterruptionPolicy.hard_interrupt))
    × (should_duck_output r ≡ is_soft outcome.policy)
    × (should_duck_output r ≡ true → (pos 180000000 ≤ℤ r.hold) × (r.hold ≤ℤ pos 720000000))
    × ((should_duck_output r || should_interrupt_output r) ≡ r.keep_pending_audio)
    × (r.keep_preview ≡ r.keep_pending_audio)
    × (is_empty r.reason ≡ false)
directive_lem_example = directive_lem outcome
