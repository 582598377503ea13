-- ===== src/Turn/Stages.antt =====
-- What the stages of an arbitration mean: `recomputeTurnArbitration` and `Arbitrate` of
-- internal/voice/turn_detector.go.
use agent_server.Prelude.{
  ◌≡◌, ◌↔◌, true, false, is_empty, ℤ, pos, ◌≤ℤ◌, leb_ℤ, add64, wrap, arith, In64,
}
use agent_server.Clock.{Duration}
use agent_server.Text.{Text, trim_space}
use agent_server.Floats.{Floats}
use agent_server.Lexicon.{first_non_empty}
use agent_server.Preview.{TurnArbitrationStage, TurnArbitration}
use agent_server.Turn.{
  TurnArbitrationInput, stage_of, total_wait, recompute_turn_arbitration, arbitrate,
  arbitration_base, prewarm_rules, draft_rules,
}
use agent_server.Turn.Waits.{
  Config, clamp_int, positive_or, default_turn_detector_min_audio_ms, duration_ms,
}

clamp-bounds :
    (v : ℤ)
    → (pos 120 ≤ℤ clamp_int v (pos 120) (pos 900)) × (clamp_int v (pos 120) (pos 900) ≤ℤ pos 900)
unfolding clamp_int
clamp-bounds v = ground arith

lead-le :
    (wait silence : ℤ)
    → wait ≤ℤ silence
    → silence ≤ℤ pos 9223372036855
    → pos 120 ≤ℤ wait
    → leb_ℤ wait (add64 silence (pos 120)) ≡ true
unfolding add64 wrap
lead-le wait silence h k p = ground arith

module _ {F : Floats} (stable partial : Text) (a : TurnArbitration F) where
  abbrev result : TurnArbitration F
  result = recompute_turn_arbitration stable partial a

  -- Whatever the base wait and the adjustments are, and however their sum wraps, the wait that a
  -- turn needs is between 120 and 900 milliseconds, and it is the silence that is required.
  pub recompute-wait_bounds :
      (pos 120 ≤ℤ result.effective_wait_ms)
      × (result.effective_wait_ms ≤ℤ pos 900)
      × (result.required_silence_ms ≡ result.effective_wait_ms)
  unfolding recompute_turn_arbitration
  recompute-wait_bounds = grind (arith, clamp-bounds)

  -- The stage says what the flags say: `accept_now` and `accept_candidate` stand for their flags,
  -- drafting and prewarming for their permissions when no acceptance comes first, and a turn with
  -- text and enough audio but none of these waits for more.
  pub recompute-stage :
      ((result.stage ≡ TurnArbitrationStage.accept_now) ↔ (result.accept_now ≡ true))
      × ((result.stage ≡ TurnArbitrationStage.accept_candidate)
          ↔ ((result.accept_now ≡ false) × (result.accept_candidate ≡ true)))
      × ((result.stage ≡ TurnArbitrationStage.draft_allowed)
          → (result.accept_candidate ≡ false) × (a.draft_allowed ≡ true))
      × ((result.stage ≡ TurnArbitrationStage.wait_for_more)
          → (result.candidate_ready ≡ true) × (a.prewarm_allowed ≡ false))
  unfolding recompute_turn_arbitration stage_of
  recompute-stage = ground arith

  -- A turn is accepted only with enough audio, with text, and after at least 120 milliseconds of
  -- silence.
  pub recompute-accept :
      result.accept_now ≡ true
      → (is_empty (trim_space (first_non_empty stable partial)) ≡ false)
        × (positive_or a.min_audio_ms default_turn_detector_min_audio_ms ≤ℤ a.audio_ms)
        × (result.effective_wait_ms ≤ℤ a.silence_ms)
        × (pos 120 ≤ℤ a.silence_ms)
  unfolding recompute_turn_arbitration
  recompute-accept h = grind (arith, clamp-bounds)

  -- A turn that is accepted is an accept candidate too, and that is ready: the candidate's window
  -- opens 120 milliseconds before the acceptance. (The silence is that of a duration, so the sum
  -- with the lead does not wrap.)
  pub recompute-candidate :
      a.silence_ms ≤ℤ pos 9223372036855
      → result.accept_now ≡ true
      → (result.accept_candidate ≡ true) × (result.candidate_ready ≡ true)
  unfolding recompute_turn_arbitration
  recompute-candidate small h = grind (arith, clamp-bounds, lead-le)

-- More silence, all else equal, never takes an acceptance back.
pub recompute-silence_mono :
    {F : Floats} (stable partial : Text) (a : TurnArbitration F) (more : ℤ)
    → a.silence_ms ≤ℤ more
    → (recompute_turn_arbitration stable partial a).accept_now ≡ true
    → (recompute_turn_arbitration stable partial (record a { silence_ms = more })).accept_now ≡ true
unfolding recompute_turn_arbitration total_wait
recompute-silence_mono stable partial a more le h = ground arith

duration_ms-le : (d : Duration) → In64 d → duration_ms d ≤ℤ pos 9223372036855
unfolding duration_ms
duration_ms-le d h = ground arith

module _ (F : Floats) (cfg : Config) (input : TurnArbitrationInput) where
  abbrev verdict : TurnArbitration F
  verdict = arbitrate F cfg input

  -- A blank partial is neither accepted nor prepared for.
  pub arbitrate-blank :
      is_empty (trim_space input.partial_text) ≡ true
      → (verdict.stage ≡ TurnArbitrationStage.preview_only)
        × (verdict.accept_now ≡ false)
        × (verdict.accept_candidate ≡ false)
        × (verdict.prewarm_allowed ≡ false)
        × (verdict.draft_allowed ≡ false)
  unfolding arbitrate arbitration_base
  arbitrate-blank h = ground arith

  -- A draft reply is allowed exactly when the partial is not blank, the utterance is complete and
  -- its kind of task does not wait for slots; and then a prewarm is allowed too.
  pub arbitrate-draft :
      ((verdict.draft_allowed ≡ true) ↔ (
        (is_empty (trim_space input.partial_text) ≡ false)
        × (input.utterance_complete ≡ true)
        × (verdict.slot_constraint_required ≡ false)))
      × (verdict.draft_allowed ≡ true → verdict.prewarm_allowed ≡ true)
  unfolding arbitrate arbitration_base recompute_turn_arbitration prewarm_rules draft_rules
  arbitrate-draft = ground arith

  -- An accepted turn has text, at least the audio that is asked for, and at least 120 milliseconds
  -- of silence behind it, as many as the wait that was computed.
  pub arbitrate-accept :
      verdict.accept_now ≡ true
      → (is_empty (trim_space input.partial_text) ≡ false)
        × (positive_or cfg.min_audio_ms default_turn_detector_min_audio_ms ≤ℤ input.audio_ms)
        × (verdict.effective_wait_ms ≤ℤ duration_ms input.silence)
        × (pos 120 ≤ℤ duration_ms input.silence)
  unfolding arbitrate arbitration_base recompute_turn_arbitration
  arbitrate-accept h = grind (arith, clamp-bounds)
