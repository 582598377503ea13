-- ===== src/Turn.antt =====
-- The end of a user's turn: the arbitration of internal/voice/turn_detector.go, which folds the
-- silence, the audio and the words of a preview into a stage.
pub mod Waits
pub mod Stages
pub mod Unfinished
pub mod Stable
pub mod Detector
pub mod Latch
mod Tests
use agent_server.Prelude.{
  ℕ, Bool, true, false, not, ◌&&◌, ◌||◌, List, [], ◌∷◌, ◌/◌, is_empty, length, if◌then◌else◌, ℤ,
  pos, negsuc, leb_ℤ, ltb_ℤ, add64, mul64, quot, pos_part, ◌==◌,
}
use agent_server.Clock.{Duration, milliseconds}
use agent_server.Text.{Text, codes, trim_space, text_eq, has_suffix, to_lower, in_set}
use agent_server.Floats.{Floats}
use agent_server.Lexicon.{
  HoldReason, no_hold, lexical_hold, correction_hold, first_non_empty, matches_any_suffix,
  rune_at_end, looks_question_closure, analyze_utterance_completeness, infer_lexical_task_family,
  task_family_requires_slot_readiness,
}
use agent_server.Lexicon.Words.{terminal_runes, clause_runes, chinese_incomplete_suffixes}
use agent_server.Preview.{
  TurnArbitrationStage, SlotActionability, TurnArbitration, InputPreview, zero_arbitration,
}
use Waits.{
  default_turn_detector_silence_ms, default_turn_detector_min_audio_ms,
  default_turn_detector_incomplete_hold_ms, default_turn_detector_hint_silence_ms,
  default_turn_detector_accept_lead_ms, default_turn_detector_min_wait_ms,
  default_turn_detector_max_wait_ms, default_server_endpoint_reason,
  lexical_hold_server_endpoint_reason, correction_hold_server_endpoint_reason, hold_text,
  LexicalMode, is_off, normalize_turn_detector_lexical_mode, SilenceTurnDetectorConfig, Config,
  positive_or, normalize_silence_turn_detector_config, new_multi_signal_turn_arbitrator, clamp_int,
  duration_ms, pcm16_audio_duration_ms, preview_punctuation_adjust_ms, actionability_adjust_ms,
  slot_guard_adjust_ms, preview_text_stability_ratio,
}

-- The stage that the flags of an arbitration give.
unfoldable pub stage_of : {F : Floats} → TurnArbitration F → TurnArbitrationStage
stage_of a =
    if a.accept_now
    then TurnArbitrationStage.accept_now
    else if a.accept_candidate
    then TurnArbitrationStage.accept_candidate
    else if a.draft_allowed
    then TurnArbitrationStage.draft_allowed
    else if a.prewarm_allowed
    then TurnArbitrationStage.prewarm_allowed
    else if a.candidate_ready
    then TurnArbitrationStage.wait_for_more
    else TurnArbitrationStage.preview_only

-- The sum of the base wait and the four adjustments, before it is clamped.
unfoldable pub total_wait : {F : Floats} → TurnArbitration F → ℤ
total_wait a =
    add64
      (add64 (add64 (add64 a.base_wait_ms a.rule_adjust_ms) a.punctuation_adjust_ms)
        a.semantic_wait_delta_ms)
      a.slot_guard_adjust_ms

-- Of the snapshot the two texts are read.
unfoldable pub recompute_turn_arbitration :
    {F : Floats} → Text → Text → TurnArbitration F → TurnArbitration F
recompute_turn_arbitration stable_prefix partial_text a =
    let best_text = trim_space (first_non_empty stable_prefix partial_text) in
    let min_audio = positive_or a.min_audio_ms default_turn_detector_min_audio_ms in
    let based = record a {
      base_wait_ms = positive_or a.base_wait_ms default_turn_detector_silence_ms;
    } in
    let ready = not (is_empty best_text) && leb_ℤ min_audio a.audio_ms in
    let wait =
      clamp_int (total_wait based) default_turn_detector_min_wait_ms
        default_turn_detector_max_wait_ms in
    let flagged = record based {
      candidate_ready = ready;
      draft_ready = ready && a.draft_allowed;
      effective_wait_ms = wait;
      required_silence_ms = wait;
      accept_ready = ready;
      accept_candidate =
          ready && leb_ℤ wait (add64 a.silence_ms default_turn_detector_accept_lead_ms);
      accept_now = ready && leb_ℤ wait a.silence_ms;
    } in
    record flagged { stage = stage_of flagged }

pub record TurnArbitrationInput : Type 0 where
  pub partial_text : Text
  pub stable_prefix : Text
  pub audio_ms : ℤ
  pub silence : Duration
  pub base_wait : Duration
  pub stable_for : Duration
  pub endpoint_reason : Text
  pub utterance_complete : Bool

unfoldable pub rule_adjust_ms : Config → Text → ℤ
rule_adjust_ms cfg partial_text =
    if is_off cfg.lexical_endpoint_mode
    then pos 0
    else if (analyze_utterance_completeness partial_text).complete
    then pos 0
    else cfg.incomplete_hold_ms

-- Whether the stable prefix alone allows a low-risk prewarm.
unfoldable pub prewarm_by_stable : (F : Floats) → F.Float → TurnArbitrationInput → Bool
prewarm_by_stable F stability input =
    let stable_prefix = trim_space input.stable_prefix in
    not (is_empty stable_prefix)
    && (analyze_utterance_completeness stable_prefix).complete
    && F.ge stability (F.hundredths 60)
    && leb_ℤ (pos 120000000) input.stable_for

-- The fields that `Arbitrate` sets before it returns early on a blank partial.
unfoldable pub arbitration_base : (F : Floats) → TurnArbitrationInput → TurnArbitration F
unfolding zero_arbitration
arbitration_base F input = record (zero_arbitration F) {
  stage = TurnArbitrationStage.preview_only;
  reason = trim_space input.endpoint_reason;
  stability = preview_text_stability_ratio F input.partial_text input.stable_prefix;
  stable_for_ms = duration_ms input.stable_for;
  audio_ms = input.audio_ms;
  silence_ms = duration_ms input.silence;
  required_silence_ms = duration_ms input.base_wait;
  endpoint_hinted = not (is_empty (trim_space input.endpoint_reason));
  task_family =
      infer_lexical_task_family
        (trim_space (first_non_empty input.partial_text input.stable_prefix));
}

-- Whether the stable prefix has covered and rested on the utterance for long enough to draft.
unfoldable pub is_settled : (F : Floats) → F.Float → TurnArbitrationInput → Bool
is_settled F stability input =
    F.ge stability (F.hundredths 82) && leb_ℤ (pos 200000000) input.stable_for

-- The three rules that allow a prewarm, and the two that allow a draft, in the source's order.
unfoldable pub prewarm_rules : (F : Floats) → F.Float → TurnArbitrationInput → Bool
unfolding prewarm_by_stable is_settled
prewarm_rules F stability input =
    prewarm_by_stable F stability input
    || input.utterance_complete && is_settled F stability input
    || input.utterance_complete

unfoldable pub draft_rules : (F : Floats) → F.Float → Bool → TurnArbitrationInput → Bool
unfolding is_settled
draft_rules F stability slot_constraint input =
    input.utterance_complete && is_settled F stability input && not slot_constraint
    || input.utterance_complete && not slot_constraint

-- `arbitration.Reason` after the rule of the held utterance and that of the slot guard.
unfoldable pub arbitration_reason : TurnArbitrationInput → ℤ → Bool → Text
arbitration_reason input rule_adjust slot_constraint =
    let given = trim_space input.endpoint_reason in
    let hold_reason = hold_text (analyze_utterance_completeness input.partial_text).hold_reason in
    let reason =
      if ltb_ℤ (pos 0) rule_adjust && not (is_empty hold_reason) then hold_reason else given in
    if input.utterance_complete && slot_constraint && is_empty (trim_space reason)
    then codes "lexical_structured_wait_slot_guard"
    else reason

unfoldable pub arbitrate : (F : Floats) → Config → TurnArbitrationInput → TurnArbitration F
arbitrate F cfg input =
    let base = arbitration_base F input in
    let rule_adjust = rule_adjust_ms cfg input.partial_text in
    let slot_constraint = task_family_requires_slot_readiness base.task_family in
    let full = record base {
      slot_constraint_required = slot_constraint;
      min_audio_ms = cfg.min_audio_ms;
      base_wait_ms = duration_ms input.base_wait;
      rule_adjust_ms = rule_adjust;
      punctuation_adjust_ms =
          if is_off cfg.lexical_endpoint_mode
          then pos 0
          else preview_punctuation_adjust_ms input.partial_text input.stable_prefix
              input.utterance_complete;
      reason = arbitration_reason input rule_adjust slot_constraint;
      prewarm_allowed = prewarm_rules F base.stability input;
      draft_allowed = draft_rules F base.stability slot_constraint input;
    } in
    if is_empty (trim_space input.partial_text)
    then base
    else recompute_turn_arbitration input.stable_prefix input.partial_text full
