-- ===== src/Turn/Latch.antt =====
-- What successive snapshots of the silence detector of internal/voice/turn_detector.go tell.
use agent_server.Prelude.{◌≡◌, true, false, List, [], ◌∷◌, ℤ, pos, ◌≤ℤ◌, arith}
use agent_server.Clock.{Time, time_sub}
use agent_server.Floats.{Floats}
use agent_server.Preview.{TurnArbitrationStage}
use agent_server.Turn.Waits.{
  pcm16_audio_duration_ms, new_multi_signal_turn_arbitrator, Config, positive_or, duration_ms,
  default_turn_detector_min_audio_ms,
}
use agent_server.Turn.Stages.{arbitrate-accept}
use agent_server.Turn.Detector.{
  TranscriptionDelta, SilenceTurnDetector, observe_audio, observe_transcription_delta, observe_text,
  shows_nothing, snapshot, arbitration_input,
}

min_audio-renormalized :
    (cfg : Config)
    → positive_or
        (new_multi_signal_turn_arbitrator cfg).min_audio_ms
        default_turn_detector_min_audio_ms
      ≡ positive_or cfg.min_audio_ms default_turn_detector_min_audio_ms
unfolding new_multi_signal_turn_arbitrator
min_audio-renormalized cfg = ground arith

-- What a detector sees.
pub data Event : Type 0 where
  audio : Time → ℤ → Event
  delta : Time → TranscriptionDelta → Event
  look : Time → Event

module _ (F : Floats) where
  unfoldable pub advance : Event → SilenceTurnDetector → SilenceTurnDetector
  unfolding observe_audio observe_transcription_delta snapshot
  advance (audio now n) d = observe_audio now n d
  advance (delta now t) d = observe_transcription_delta now t d
  advance (look now) d = (snapshot F d now).0

  unfoldable pub advance_all : List Event → SilenceTurnDetector → SilenceTurnDetector
  advance_all [] d = d
  advance_all (e ∷ es) d = advance_all es (advance e d)

  -- The latch of a suggested commit is never released.
  advance-latched :
      (e : Event) (d : SilenceTurnDetector)
      → d.commit_suggested ≡ true
      → (advance e d).commit_suggested ≡ true
  unfolding advance observe_text
  advance-latched (audio now n) d h = ground arith
  advance-latched (delta now t) d h = ground arith
  advance-latched (look now) d h = ground arith

  advance_all-latched :
      (es : List Event) (d : SilenceTurnDetector)
      → d.commit_suggested ≡ true
      → (advance_all es d).commit_suggested ≡ true
  unfolding advance_all
  advance_all-latched [] d h = h
  advance_all-latched (e ∷ es) d h = advance_all-latched es (advance e d) (advance-latched e d h)

  snapshot-latched :
      (d : SilenceTurnDetector) (now : Time)
      → shows_nothing d ≡ false
      → d.commit_suggested ≡ true
      → ((snapshot F d now).1.commit_suggested ≡ true)
        × ((snapshot F d now).1.arbitration.stage ≡ TurnArbitrationStage.accept_now)
  unfolding snapshot
  snapshot-latched d now h k = ground arith

  snapshot-sets_latch :
      (d : SilenceTurnDetector) (now : Time)
      → (snapshot F d now).1.commit_suggested ≡ true
      → (snapshot F d now).0.commit_suggested ≡ true
  unfolding snapshot
  snapshot-sets_latch d now h = ground arith

  -- Once a snapshot suggested the commit of the turn, every later one suggests it too and shows the
  -- stage `accept_now`, whatever audio and deltas come between and however short the silence is
  -- then, as long as there is text to show and audio was seen.
  pub commit_suggestion_persists :
      (d : SilenceTurnDetector) (now later : Time) (es : List Event)
      → (snapshot F d now).1.commit_suggested ≡ true
      → shows_nothing (advance_all es (snapshot F d now).0) ≡ false
      → let d' = advance_all es (snapshot F d now).0 in
        ((snapshot F d' later).1.commit_suggested ≡ true)
        × ((snapshot F d' later).1.arbitration.stage ≡ TurnArbitrationStage.accept_now)
  commit_suggestion_persists d now later es h text =
      snapshot-latched (advance_all es (snapshot F d now).0) later text
        (advance_all-latched es (snapshot F d now).0 (snapshot-sets_latch d now h))

  -- The first suggestion of a commit needs text, at least the configured audio (320 milliseconds if
  -- none is configured), and at least 120 milliseconds since the last audio.
  pub first_commit_needs :
      (d : SilenceTurnDetector) (now : Time)
      → d.commit_suggested ≡ false
      → (snapshot F d now).1.commit_suggested ≡ true
      → (shows_nothing d ≡ false)
        × (positive_or d.config.min_audio_ms default_turn_detector_min_audio_ms
            ≤ℤ pcm16_audio_duration_ms d.audio_bytes d.sample_rate_hz d.channels)
        × (pos 120 ≤ℤ duration_ms (time_sub now d.last_audio_at))
  unfolding snapshot arbitration_input
  first_commit_needs d now fresh h =
      let input = arbitration_input d now in
      let cfg = new_multi_signal_turn_arbitrator d.config in
      ground (arith, arbitrate-accept F cfg input, min_audio-renormalized d.config)
