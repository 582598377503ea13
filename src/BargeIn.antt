-- ===== src/BargeIn.antt =====
-- Barge-in: whether what the user says while a reply is played stops the reply. `EvaluateBargeIn` of
-- internal/voice/barge_in.go, with its signals and scores.
pub mod Signals
pub mod Directive
pub mod Policy
pub mod Runes
mod Tests
use agent_server.Prelude.{
  ℕ, Bool, true, false, not, ◌&&◌, ◌||◌, List, [], ◌∷◌, is_empty, length, if◌then◌else◌, leb, ltb,
  ℤ, pos, leb_ℤ, ltb_ℤ, add64, quot,
}
use agent_server.Text.{Text, codes, text_eq, trim_space, to_lower}
use agent_server.Floats.{Floats, clamp_unit}
use agent_server.Lexicon.{
  first_non_empty, looks_like_backchannel, looks_like_takeover_lexicon, looks_lexically_complete,
}
use agent_server.Preview.{InputPreview, TurnArbitrationStage}
use agent_server.Turn.Waits.{pcm16_audio_duration_ms, positive_or}
use agent_server.Playback.Policy.{InterruptionPolicy}
use Signals.{
  BargeInConfig, BargeInDecision, SemanticIntent, is_backchannel_intent, normalize_barge_in_config,
  barge_in_backchannel_min_audio_ms, initial_decision, signals,
}

module _ (F : Floats) where
  open F use {hundredths, lt, ge}

  unfoldable pub barge_in_accept_reason : BargeInDecision F → Text
  barge_in_accept_reason d =
      if d.takeover_lexicon || d.semantic_takeover
      then codes "accepted_takeover_lexicon"
      else if d.accept_now
      then codes "accepted_accept_now"
      else if d.lexically_complete
      then codes "accepted_complete_preview"
      else codes "accepted_semantic_confirmation"

  abbrev pub decided : BargeInDecision F → InterruptionPolicy → Bool → Text → BargeInDecision F
  decided d policy accepted reason = record d {
    policy = policy;
    accepted = accepted;
    reason = reason;
  }

  -- The rules of `EvaluateBargeIn`, in order, on the signals: the last ones, which never accept.
  unfoldable pub decide_pending : BargeInDecision F → BargeInConfig → Bool → BargeInDecision F
  decide_pending d cfg has_text =
      if ltb_ℤ d.audio_ms cfg.min_audio_ms
      then (if has_text
          then decided d InterruptionPolicy.duck_only false (codes "duck_pending_min_audio")
          else if d.acoustic_ready
          then decided d InterruptionPolicy.duck_only false (codes "duck_pending_audio_only")
          else record d { reason = codes "below_min_audio" })
      else if d.backchannel_likely
          && lt d.takeover_score (hundredths 35)
          && not d.accept_candidate
          && not d.accept_now
      then decided d InterruptionPolicy.backchannel false (codes "backchannel_short_ack")
      else if not has_text
      then decided d InterruptionPolicy.duck_only false (codes "duck_pending_audio_only")
      else if d.semantic_ready
      then decided d InterruptionPolicy.duck_only false (codes "duck_pending_semantic_confirmation")
      else decided d InterruptionPolicy.duck_only false (codes "duck_pending_incomplete_preview")

  -- The tests of the rules that come first, in the source's order.
  abbrev pub takes_over : BargeInDecision F → Bool
  takes_over d = d.takeover_lexicon || d.semantic_takeover

  abbrev pub is_unsettled : BargeInDecision F → Bool
  is_unsettled d = not d.accept_candidate && not d.accept_now && not d.takeover_lexicon

  unfoldable pub semantic_backchannel_rule : BargeInDecision F → Bool
  semantic_backchannel_rule d =
      is_backchannel_intent d.semantic_intent
      && ge d.semantic_confidence (hundredths 78)
      && is_unsettled d

  unfoldable pub semantic_takeover_rule : BargeInDecision F → Bool
  semantic_takeover_rule d =
      d.acoustic_ready && d.semantic_takeover && ge d.semantic_confidence (hundredths 78)

  unfoldable pub short_ack_rule : BargeInDecision F → BargeInConfig → Bool
  short_ack_rule d cfg =
      d.backchannel_likely
      && is_unsettled d
      && leb_ℤ (barge_in_backchannel_min_audio_ms cfg.min_audio_ms) d.audio_ms

  unfoldable pub complete_rule : BargeInDecision F → BargeInConfig → Bool
  complete_rule d cfg =
      leb_ℤ cfg.min_audio_ms d.audio_ms
      && not d.backchannel_likely
      && (d.lexically_complete || takes_over d)

  unfoldable pub accept_now_rule : BargeInDecision F → Bool
  accept_now_rule d = d.accept_now && (d.lexically_complete || d.semantic_ready || takes_over d)

  unfoldable pub accept_candidate_rule : BargeInDecision F → Bool
  accept_candidate_rule d =
      d.accept_candidate
      && d.semantic_ready
      && not d.backchannel_likely
      && (d.lexically_complete || takes_over d || ge d.takeover_score (hundredths 68))

  unfoldable pub hold_rule : BargeInDecision F → BargeInConfig → Bool → Bool
  hold_rule d cfg has_best =
      leb_ℤ (add64 cfg.min_audio_ms cfg.incomplete_hold_ms) d.audio_ms
      && (has_best || ge d.intrusion_score (hundredths 72))
      && not d.backchannel_likely

  unfoldable pub decide : BargeInDecision F → BargeInConfig → Text → Text → BargeInDecision F
  decide d cfg partial_text stable_prefix =
      let has_text = not (is_empty partial_text) || not (is_empty stable_prefix) in
      let has_best = not (is_empty (first_non_empty stable_prefix partial_text)) in
      if semantic_backchannel_rule d
      then decided d InterruptionPolicy.backchannel false (codes "semantic_backchannel")
      else if semantic_takeover_rule d
      then decided d InterruptionPolicy.hard_interrupt true (codes "accepted_semantic_takeover")
      else if short_ack_rule d cfg
      then decided d InterruptionPolicy.backchannel false (codes "backchannel_short_ack")
      else if complete_rule d cfg
      then decided d InterruptionPolicy.hard_interrupt true (
          if takes_over d
          then codes "accepted_takeover_lexicon"
          else codes "accepted_complete_preview")
      else if accept_now_rule d
      then decided d InterruptionPolicy.hard_interrupt true (barge_in_accept_reason d)
      else if accept_candidate_rule d
      then decided d InterruptionPolicy.hard_interrupt true (codes "accepted_accept_candidate")
      else if hold_rule d cfg has_best
      then decided d InterruptionPolicy.hard_interrupt true (codes "accepted_incomplete_after_hold")
      else decide_pending d cfg has_text

  unfoldable pub evaluate_barge_in : InputPreview F → ℤ → ℤ → BargeInConfig → BargeInDecision F
  evaluate_barge_in preview sample_rate_hz channels given =
      let cfg = normalize_barge_in_config given in
      let audio_ms = pcm16_audio_duration_ms preview.audio_bytes sample_rate_hz channels in
      if not preview.speech_started || leb_ℤ preview.audio_bytes (pos 0)
      then record (initial_decision F cfg) { reason = codes "no_speech_started" }
      else if leb_ℤ sample_rate_hz (pos 0) || leb_ℤ channels (pos 0)
      then record (initial_decision F cfg) { reason = codes "invalid_audio_format" }
      else decide (signals F preview audio_ms cfg) cfg (trim_space preview.partial_text)
          (trim_space preview.stable_prefix)
