-- ===== src/Turn/Detector.antt =====
-- `SilenceTurnDetector` of internal/voice/turn_detector.go. A method
-- that mutates the detector gives the new record.
use agent_server.Prelude.{
  Bool, true, false, not, ◌&&◌, ◌||◌, [], is_empty, if◌then◌else◌, ℤ, pos, leb_ℤ, ltb_ℤ, add64,
}
use agent_server.Clock.{Time, Duration, zero_time, is_zero, before, time_sub, milliseconds}
use agent_server.Text.{Text, text_eq, trim_space}
use agent_server.Floats.{Floats}
use agent_server.Lexicon.{
  analyze_utterance_completeness, preview_utterance_completeness, first_non_empty,
}
use agent_server.Preview.{TurnArbitrationStage, TurnArbitration, InputPreview, zero_arbitration}
use agent_server.Turn.{TurnArbitrationInput, arbitrate}
use agent_server.Turn.Waits.{
  SilenceTurnDetectorConfig, Config, is_off, hold_text, normalize_silence_turn_detector_config,
  pcm16_audio_duration_ms, default_server_endpoint_reason, lexical_hold_server_endpoint_reason,
  preview_text_stability_ratio, new_multi_signal_turn_arbitrator,
}
use agent_server.Turn.Stable.{update_stable_prefix}

pub data TranscriptionDeltaKind : Type 0 where
  speech_start partial speech_end final : TranscriptionDeltaKind
  other : Text → TranscriptionDeltaKind

-- `AudioBytes` of a delta is not read here.
pub record TranscriptionDelta : Type 0 where
  pub kind : TranscriptionDeltaKind
  pub text : Text
  pub endpoint_reason : Text

pub record SilenceTurnDetector : Type 0 where
  pub config : Config
  pub sample_rate_hz : ℤ
  pub channels : ℤ
  pub audio_bytes : ℤ
  pub last_audio_at : Time
  pub speech_started : Bool
  pub latest_partial : Text
  pub stable_prefix : Text
  pub stable_prefix_at : Time
  pub latest_endpoint_hint : Text
  pub commit_suggested : Bool
  pub commit_reason : Text

unfoldable pub new_silence_turn_detector :
    SilenceTurnDetectorConfig Text → ℤ → ℤ → SilenceTurnDetector
unfolding normalize_silence_turn_detector_config
new_silence_turn_detector cfg sample_rate_hz channels = record {
  config = normalize_silence_turn_detector_config cfg;
  sample_rate_hz = if leb_ℤ sample_rate_hz (pos 0) then pos 16000 else sample_rate_hz;
  channels = if leb_ℤ channels (pos 0) then pos 1 else channels;
  audio_bytes = pos 0;
  last_audio_at = zero_time;
  speech_started = false;
  latest_partial = [];
  stable_prefix = [];
  stable_prefix_at = zero_time;
  latest_endpoint_hint = [];
  commit_suggested = false;
  commit_reason = [];
}

unfoldable pub observe_audio : Time → ℤ → SilenceTurnDetector → SilenceTurnDetector
observe_audio now audio_bytes d = if leb_ℤ audio_bytes (pos 0) then d else record d {
  audio_bytes = add64 d.audio_bytes audio_bytes;
  last_audio_at = now;
  speech_started = true;
}

-- The block `if text := delta.Text; text != ""`.
unfoldable pub observe_text : Time → Text → Bool → SilenceTurnDetector → SilenceTurnDetector
observe_text now text is_final d =
    let previous_stable = trim_space d.stable_prefix in
    let next_stable = update_stable_prefix d.latest_partial d.stable_prefix text is_final in
    let trimmed_stable = trim_space next_stable in
    let at =
      if is_empty trimmed_stable
      then zero_time
      else if not (text_eq trimmed_stable previous_stable) || is_zero d.stable_prefix_at
      then now
      else d.stable_prefix_at in
    if is_empty text
    then d
    else record d { stable_prefix_at = at; stable_prefix = next_stable; latest_partial = text }

abbrev set_hint : Text → SilenceTurnDetector → SilenceTurnDetector
set_hint reason d = record d { latest_endpoint_hint = trim_space reason }

observe_kind :
    TranscriptionDeltaKind → Time → TranscriptionDelta → SilenceTurnDetector → SilenceTurnDetector
observe_kind TranscriptionDeltaKind.speech_start now delta d = record d { speech_started = true }
observe_kind TranscriptionDeltaKind.partial now delta d =
    set_hint delta.endpoint_reason (observe_text now delta.text false d)
observe_kind TranscriptionDeltaKind.final now delta d =
    set_hint delta.endpoint_reason (observe_text now delta.text true d)
observe_kind TranscriptionDeltaKind.speech_end now delta d = set_hint delta.endpoint_reason d
observe_kind _ now delta d = d

unfoldable pub observe_transcription_delta :
    Time → TranscriptionDelta → SilenceTurnDetector → SilenceTurnDetector
unfolding observe_kind
observe_transcription_delta now delta d = observe_kind delta.kind now delta d

unfoldable pub stable_prefix_duration : SilenceTurnDetector → Time → Duration
stable_prefix_duration d now =
    if is_empty (trim_space d.stable_prefix) || is_zero d.stable_prefix_at
    then pos 0
    else if before now d.stable_prefix_at
    then pos 0
    else time_sub now d.stable_prefix_at

unfoldable pub base_wait_for_partial : SilenceTurnDetector → Duration × Text
base_wait_for_partial d =
    let required = milliseconds d.config.silence_ms in
    let completeness = analyze_utterance_completeness d.latest_partial in
    let hint = trim_space d.latest_endpoint_hint in
    let hint_silence = milliseconds d.config.endpoint_hint_silence_ms in
    let hinted = not (is_empty hint) && completeness.complete in
    let shortens = ltb_ℤ (pos 0) hint_silence && ltb_ℤ hint_silence required in
    if is_off d.config.lexical_endpoint_mode
    then (if hinted && shortens
        then (hint_silence, hint)
        else (required, default_server_endpoint_reason))
    else if hinted
    then (if shortens then (hint_silence, hint) else (required, hint))
    else if not completeness.complete
    then (
      required,
      first_non_empty (trim_space (hold_text completeness.hold_reason))
          lexical_hold_server_endpoint_reason,
    )
    else (required, default_server_endpoint_reason)

unfoldable pub arbitration_input : SilenceTurnDetector → Time → TurnArbitrationInput
arbitration_input d now =
    let wait = base_wait_for_partial d in
    record {
      partial_text = trim_space d.latest_partial;
      stable_prefix = trim_space d.stable_prefix;
      audio_ms = pcm16_audio_duration_ms d.audio_bytes d.sample_rate_hz d.channels;
      silence = time_sub now d.last_audio_at;
      base_wait = wait.0;
      stable_for = stable_prefix_duration d now;
      endpoint_reason = trim_space wait.1;
      utterance_complete =
          (preview_utterance_completeness (trim_space d.stable_prefix)
            (trim_space d.latest_partial)).complete;
    }

-- `partialText == "" || d.lastAudioAt.IsZero()`
abbrev pub shows_nothing : SilenceTurnDetector → Bool
shows_nothing d = is_empty (trim_space d.latest_partial) || is_zero d.last_audio_at

module _ (F : Floats) where
  -- What `Snapshot` shows before there is text and audio.
  waiting_arbitration : SilenceTurnDetector → TurnArbitration F
  unfolding zero_arbitration
  waiting_arbitration d = record (zero_arbitration F) {
    stage = TurnArbitrationStage.preview_only;
    audio_ms = pcm16_audio_duration_ms d.audio_bytes d.sample_rate_hz d.channels;
    min_audio_ms = d.config.min_audio_ms;
    base_wait_ms = d.config.silence_ms;
    effective_wait_ms = d.config.silence_ms;
    stability =
        preview_text_stability_ratio F (trim_space d.latest_partial) (trim_space d.stable_prefix);
    required_silence_ms = d.config.silence_ms;
  }

  -- The arbitration, overridden once a commit was suggested.
  unfoldable pub latched_arbitration : SilenceTurnDetector → Time → TurnArbitration F
  latched_arbitration d now =
      let a = arbitrate F (new_multi_signal_turn_arbitrator d.config) (arbitration_input d now) in
      if d.commit_suggested
      then record a {
        stage = TurnArbitrationStage.accept_now;
        accept_candidate = true;
        accept_now = true;
        reason = d.commit_reason;
      }
      else a

  abbrev preview_of : SilenceTurnDetector → Text → Bool → TurnArbitration F → InputPreview F
  preview_of d endpoint_reason commit arbitration = record {
    partial_text = d.latest_partial;
    stable_prefix = d.stable_prefix;
    endpoint_reason = endpoint_reason;
    audio_bytes = d.audio_bytes;
    commit_suggested = commit;
    speech_started = d.speech_started;
    utterance_complete =
        (preview_utterance_completeness (trim_space d.stable_prefix)
          (trim_space d.latest_partial)).complete;
    arbitration = arbitration;
  }

  -- `Snapshot` latches a suggested commit.
  unfoldable pub snapshot : SilenceTurnDetector → Time → SilenceTurnDetector × InputPreview F
  unfolding waiting_arbitration latched_arbitration
  snapshot d now =
      let a = latched_arbitration d now in
      let reason = first_non_empty (trim_space a.reason) (base_wait_for_partial d).1 in
      if shows_nothing d then (d, preview_of d [] false (waiting_arbitration d)) else (
        if a.accept_now then record d { commit_suggested = true; commit_reason = reason } else d,
        preview_of d (if a.accept_candidate then reason else []) a.accept_now a,
      )
