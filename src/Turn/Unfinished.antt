-- ===== src/Turn/Unfinished.antt =====
-- How long an utterance that is not complete is held: `Arbitrate` of
-- internal/voice/turn_detector.go.
use agent_server.Prelude.{
  Bool, ◌&&◌, leb_ℤ, refl, ℤ, ℕ, ◌≡◌, ◌≤◌, ◌<◌, ◌⊎◌, ◌+◌, inl, inr, false, is_empty, pos, ◌≤ℤ◌,
  add64, arith, add64_pos, min,
}
use agent_server.Text.{Text, trim_space}
use agent_server.Floats.{Floats}
use agent_server.Lexicon.{analyze_utterance_completeness}
use agent_server.Turn.{
  TurnArbitrationInput, total_wait, recompute_turn_arbitration, arbitrate, arbitration_base,
  rule_adjust_ms,
}
use agent_server.Preview.{TurnArbitration}
use agent_server.Turn.Waits.{
  Config, is_off, clamp_int, duration_ms, default_turn_detector_accept_lead_ms,
  preview_punctuation_adjust_ms,
}

-- A sum of five waits of which the last two are nothing.
sum_of_waits :
    (base hold adjust : ℕ)
    → base < 1000000000000
    → hold < 1000000000000
    → adjust ≤ 120
    → add64 (add64 (add64 (add64 (pos base) (pos hold)) (pos adjust)) (pos 0)) (pos 0)
      ≡ pos (base + hold + adjust + 0 + 0)
sum_of_waits base hold adjust h k l = rw (
  add64_pos base hold (omega arith),
  add64_pos (base + hold) adjust (omega arith),
  add64_pos (base + hold + adjust) 0 (omega arith),
  add64_pos (base + hold + adjust + 0) 0 (omega arith),
)

clamp-least :
    (n adjust : ℕ) → pos (min 900 n) ≤ℤ clamp_int (pos (n + adjust + 0 + 0)) (pos 120) (pos 900)
unfolding clamp_int
clamp-least n adjust = ground arith

-- An unfinished utterance earns no bonus for its punctuation, and at most the hold of a clause.
punctuation-unfinished :
    (partial stable : Text)
    → (preview_punctuation_adjust_ms partial stable false ≡ pos 0)
      ⊎ (preview_punctuation_adjust_ms partial stable false ≡ pos 120)
unfolding preview_punctuation_adjust_ms
punctuation-unfinished partial stable = ground arith

-- The wait of such an utterance, as the clamp of the sum.
arbitrate-wait :
    (F : Floats) (cfg : Config) (input : TurnArbitrationInput) {base hold : ℕ}
    → is_off cfg.lexical_endpoint_mode ≡ false
    → is_empty (trim_space input.partial_text) ≡ false
    → input.utterance_complete ≡ false
    → (analyze_utterance_completeness input.partial_text).complete ≡ false
    → duration_ms input.base_wait ≡ pos base
    → cfg.incomplete_hold_ms ≡ pos hold
    → 0 < base
    → (arbitrate F cfg input).effective_wait_ms
      ≡ clamp_int
          (add64
            (add64
              (add64
                (add64 (pos base) (pos hold))
                (preview_punctuation_adjust_ms input.partial_text input.stable_prefix false))
              (pos 0))
            (pos 0))
          (pos 120)
          (pos 900)
unfolding arbitrate arbitration_base recompute_turn_arbitration total_wait rule_adjust_ms
arbitrate-wait F cfg input on text open_ended held eb eh p = ground arith

waits_at_least :
    (base hold adjust : ℕ)
    → base < 1000000000000
    → hold < 1000000000000
    → adjust ≤ 120
    → pos (min 900 (base + hold))
      ≤ℤ clamp_int
          (add64 (add64 (add64 (add64 (pos base) (pos hold)) (pos adjust)) (pos 0)) (pos 0))
          (pos 120)
          (pos 900)
waits_at_least base hold adjust h k l =
    rw (sum_of_waits base hold adjust h k l) (clamp-least (base + hold) adjust)

-- The same, of the wait alone.
wait-unfinished :
    (F : Floats) (cfg : Config) (input : TurnArbitrationInput) {base hold : ℕ}
    → is_off cfg.lexical_endpoint_mode ≡ false
    → is_empty (trim_space input.partial_text) ≡ false
    → input.utterance_complete ≡ false
    → (analyze_utterance_completeness input.partial_text).complete ≡ false
    → duration_ms input.base_wait ≡ pos base
    → cfg.incomplete_hold_ms ≡ pos hold
    → 0 < base
    → base < 1000000000000
    → hold < 1000000000000
    → pos (min 900 (base + hold)) ≤ℤ (arbitrate F cfg input).effective_wait_ms
wait-unfinished F cfg input {base} {hold} on text open_ended held eb eh p hb hh =
    rw (arbitrate-wait F cfg input on text open_ended held eb eh p)
      (elim (punctuation-unfinished input.partial_text input.stable_prefix) [
        | inl e ↦ rw e (waits_at_least base hold 0 hb hh (omega arith))
        | inr e ↦ rw e (waits_at_least base hold 120 hb hh (omega arith))
      ])

reached : (b : Bool) (wait silence : ℤ) → ((b && leb_ℤ wait silence) ≡ false) ⊎ (wait ≤ℤ silence)
reached b wait silence = ground arith

recompute-flags :
    {F : Floats} (stable partial : Text) (a : TurnArbitration F)
    → let r = recompute_turn_arbitration stable partial a in
      (r.required_silence_ms ≡ r.effective_wait_ms)
      × ((r.accept_now ≡ false) ⊎ (r.effective_wait_ms ≤ℤ a.silence_ms))
      × ((r.accept_candidate ≡ false)
          ⊎ (r.effective_wait_ms ≤ℤ add64 a.silence_ms default_turn_detector_accept_lead_ms))
unfolding recompute_turn_arbitration
recompute-flags stable partial a =
    let r = recompute_turn_arbitration stable partial a in
    (
      refl,
      reached r.candidate_ready r.effective_wait_ms a.silence_ms,
      reached r.candidate_ready r.effective_wait_ms
          (add64 a.silence_ms default_turn_detector_accept_lead_ms),
    )

-- The flags that Arbitrate sets follow the wait that it sets.
arbitrate-flags :
    (F : Floats) (cfg : Config) (input : TurnArbitrationInput)
    → is_empty (trim_space input.partial_text) ≡ false
    → let a = arbitrate F cfg input in
      (a.required_silence_ms ≡ a.effective_wait_ms)
      × ((a.accept_now ≡ false) ⊎ (a.effective_wait_ms ≤ℤ duration_ms input.silence))
      × ((a.accept_candidate ≡ false)
          ⊎ (a.effective_wait_ms
              ≤ℤ add64 (duration_ms input.silence) default_turn_detector_accept_lead_ms))
unfolding arbitrate arbitration_base
arbitrate-flags F cfg input text =
    rw text (recompute-flags input.stable_prefix input.partial_text _)

-- What Arbitrate itself asks for, before a semantic judge adjusts it and apart from a suggestion that
-- the detector remembers: while the lexical rules are on, for a partial that is neither blank nor
-- complete, in a preview that is not complete, the silence that it requires is at least the base wait
-- and the hold for unfinished utterances together, or 900 milliseconds, the longest wait there is, if
-- that is less; it accepts the turn at once only after at least that silence, and makes it a candidate
-- only once the silence and the accept lead together (as an int of 64 bits) reach it. (The base wait is positive, and both are below 10 ^ 12 milliseconds, so that their sum does
-- not wrap.)
pub arbitrate-unfinished :
    (F : Floats) (cfg : Config) (input : TurnArbitrationInput) {base hold : ℕ}
    → is_off cfg.lexical_endpoint_mode ≡ false
    → is_empty (trim_space input.partial_text) ≡ false
    → input.utterance_complete ≡ false
    → (analyze_utterance_completeness input.partial_text).complete ≡ false
    → duration_ms input.base_wait ≡ pos base
    → cfg.incomplete_hold_ms ≡ pos hold
    → 0 < base
    → base < 1000000000000
    → hold < 1000000000000
    → let a = arbitrate F cfg input in
      let least = pos (min 900 (base + hold)) in
      (least ≤ℤ a.effective_wait_ms)
      × (a.required_silence_ms ≡ a.effective_wait_ms)
      × ((a.accept_now ≡ false) ⊎ (least ≤ℤ duration_ms input.silence))
      × ((a.accept_candidate ≡ false)
          ⊎ (least ≤ℤ add64 (duration_ms input.silence) default_turn_detector_accept_lead_ms))
arbitrate-unfinished F cfg input {base} {hold} on text open_ended held eb eh p hb hh =
    let least = wait-unfinished F cfg input on text open_ended held eb eh p hb hh in
    let (same, now, candidate) = arbitrate-flags F cfg input text in
    (
      least,
      same,
      elim now [ inl never ↦ inl never | inr silent ↦ inr (ground arith) ],
      elim candidate [ inl never ↦ inl never | inr silent ↦ inr (ground arith) ],
    )
