-- ===== src/Turn/Waits.antt =====
-- The settings of the turn detector, and the parts that its wait is made of:
-- internal/voice/turn_detector.go.
use agent_server.Prelude.{
  Bool, true, false, ◌||◌, [], is_empty, length, if◌then◌else◌, ℤ, pos, negsuc, leb_ℤ, ltb_ℤ, add64,
  mul64, quot, pos_part,
}
use agent_server.Clock.{Duration}
use agent_server.Text.{Text, codes, trim_space, text_eq, has_suffix, to_lower, in_set}
use agent_server.Floats.{Floats}
use agent_server.Lexicon.{
  HoldReason, no_hold, lexical_hold, correction_hold, first_non_empty, matches_any_suffix,
  rune_at_end, looks_question_closure,
}
use agent_server.Lexicon.Words.{terminal_runes, clause_runes, chinese_incomplete_suffixes}
use agent_server.Preview.{SlotActionability, TurnArbitration}

abbrev pub default_turn_detector_silence_ms : ℤ
default_turn_detector_silence_ms = pos 480

abbrev pub default_turn_detector_min_audio_ms : ℤ
default_turn_detector_min_audio_ms = pos 320

abbrev pub default_turn_detector_incomplete_hold_ms : ℤ
default_turn_detector_incomplete_hold_ms = pos 720

abbrev pub default_turn_detector_hint_silence_ms : ℤ
default_turn_detector_hint_silence_ms = pos 160

abbrev pub default_turn_detector_accept_lead_ms : ℤ
default_turn_detector_accept_lead_ms = pos 120

abbrev pub default_turn_detector_min_wait_ms : ℤ
default_turn_detector_min_wait_ms = pos 120

abbrev pub default_turn_detector_max_wait_ms : ℤ
default_turn_detector_max_wait_ms = pos 900

abbrev pub default_server_endpoint_reason : Text
default_server_endpoint_reason = codes "server_silence_timeout"

abbrev pub lexical_hold_server_endpoint_reason : Text
lexical_hold_server_endpoint_reason = codes "server_lexical_hold_timeout"

abbrev pub correction_hold_server_endpoint_reason : Text
correction_hold_server_endpoint_reason = codes "server_correction_hold_timeout"

unfoldable pub hold_text : HoldReason → Text
hold_text no_hold = []
hold_text lexical_hold = lexical_hold_server_endpoint_reason
hold_text correction_hold = correction_hold_server_endpoint_reason

-- The two values that `normalizeTurnDetectorLexicalMode` returns.
pub data LexicalMode : Type 0 where
  conservative off : LexicalMode

abbrev pub is_off : LexicalMode → Bool
is_off off = true
is_off conservative = false

unfoldable pub normalize_turn_detector_lexical_mode : Text → LexicalMode
unfolding trim_space to_lower text_eq
normalize_turn_detector_lexical_mode mode =
    if text_eq (to_lower (trim_space mode)) (codes "off") then off else conservative

-- The configuration after `NormalizeSilenceTurnDetectorConfig`, and as it is given.
pub record SilenceTurnDetectorConfig (Mode : Type 0) : Type 0 where
  pub min_audio_ms : ℤ
  pub silence_ms : ℤ
  pub lexical_endpoint_mode : Mode
  pub incomplete_hold_ms : ℤ
  pub endpoint_hint_silence_ms : ℤ

abbrev pub Config : Type 0
Config = SilenceTurnDetectorConfig LexicalMode

-- `if v <= 0 { v = d }`
abbrev pub positive_or : ℤ → ℤ → ℤ
positive_or v d = if leb_ℤ v (pos 0) then d else v

unfoldable pub normalize_silence_turn_detector_config : SilenceTurnDetectorConfig Text → Config
unfolding normalize_turn_detector_lexical_mode
normalize_silence_turn_detector_config cfg = record {
  min_audio_ms = positive_or cfg.min_audio_ms default_turn_detector_min_audio_ms;
  silence_ms = positive_or cfg.silence_ms default_turn_detector_silence_ms;
  lexical_endpoint_mode = normalize_turn_detector_lexical_mode cfg.lexical_endpoint_mode;
  incomplete_hold_ms = positive_or cfg.incomplete_hold_ms default_turn_detector_incomplete_hold_ms;
  endpoint_hint_silence_ms =
      positive_or cfg.endpoint_hint_silence_ms default_turn_detector_hint_silence_ms;
}

-- `NewMultiSignalTurnArbitrator` normalizes a configuration that is normalized already; its mode is
-- one of the two values that normalization leaves alone.
unfoldable pub new_multi_signal_turn_arbitrator : Config → Config
new_multi_signal_turn_arbitrator cfg = record cfg {
  min_audio_ms = positive_or cfg.min_audio_ms default_turn_detector_min_audio_ms;
  silence_ms = positive_or cfg.silence_ms default_turn_detector_silence_ms;
  incomplete_hold_ms = positive_or cfg.incomplete_hold_ms default_turn_detector_incomplete_hold_ms;
  endpoint_hint_silence_ms =
      positive_or cfg.endpoint_hint_silence_ms default_turn_detector_hint_silence_ms;
}

unfoldable pub clamp_int : ℤ → ℤ → ℤ → ℤ
clamp_int value min_value max_value =
    let low = if ltb_ℤ max_value min_value then max_value else min_value in
    let high = if ltb_ℤ max_value min_value then min_value else max_value in
    if ltb_ℤ value low then low else if ltb_ℤ high value then high else value

unfoldable pub duration_ms : Duration → ℤ
unfolding quot
duration_ms value = if leb_ℤ value (pos 0) then pos 0 else quot value 1000000

-- pcm16AudioDurationMs of internal/voice/barge_in.go.
unfoldable pub pcm16_audio_duration_ms : ℤ → ℤ → ℤ → ℤ
unfolding quot mul64
pcm16_audio_duration_ms audio_bytes sample_rate_hz channels =
    if leb_ℤ audio_bytes (pos 0) || leb_ℤ sample_rate_hz (pos 0) || leb_ℤ channels (pos 0)
    then pos 0
    else (let samples = quot (quot audio_bytes (pos_part channels)) 2 in
        quot (quot (mul64 samples (pos 1000000000)) (pos_part sample_rate_hz)) 1000000)

unfoldable pub preview_punctuation_adjust_ms : Text → Text → Bool → ℤ
preview_punctuation_adjust_ms partial_text stable_prefix utterance_complete =
    let text = trim_space (first_non_empty partial_text stable_prefix) in
    let last = rune_at_end text in
    if is_empty text
    then pos 0
    else if utterance_complete
    then (if in_set terminal_runes last
        then negsuc 99
        else if looks_question_closure text
        then negsuc 79
        else pos 0)
    else if in_set clause_runes last
        || matches_any_suffix text chinese_incomplete_suffixes
        || has_suffix text (codes "...")
        || has_suffix text (codes "……")
    then pos 120
    else pos 0

unfoldable pub actionability_adjust_ms : SlotActionability → ℤ
actionability_adjust_ms SlotActionability.wait_more = pos 220
actionability_adjust_ms SlotActionability.clarify_needed = pos 80
actionability_adjust_ms SlotActionability.act_candidate = negsuc 39
actionability_adjust_ms _ = pos 0

unfoldable pub slot_guard_adjust_ms : {F : Floats} → TurnArbitration F → ℤ
unfolding actionability_adjust_ms add64
slot_guard_adjust_ms a =
    let adjust = actionability_adjust_ms a.slot_actionability in
    if a.slot_risk_confirm_required then add64 adjust (pos 120) else adjust

unfoldable pub preview_text_stability_ratio : (F : Floats) → Text → Text → F.Float
unfolding trim_space
preview_text_stability_ratio F text stable_prefix =
    let text_runes = trim_space text in
    let value =
      F.div (F.of_int (pos (length (trim_space stable_prefix))))
        (F.of_int (pos (length text_runes))) in
    if is_empty text_runes
    then F.hundredths 0
    else if F.lt value (F.hundredths 0)
    then F.hundredths 0
    else if F.lt (F.hundredths 100) value
    then F.hundredths 100
    else value
