-- ===== src/BargeIn/Policy.antt =====
-- What a decision of `EvaluateBargeIn` in internal/voice/barge_in.go needs and implies.
use agent_server.Prelude.{
  ◌≡◌, ◌∙◌, sym, ap, subst, ◌↔◌, ◌⊎◌, ◌<ℤ◌, inl, inr, refl, Bool, true, false, not, ◌||◌,
  if◌then◌else◌, is_empty, ℤ, pos, arith,
}
use agent_server.Text.{Text, trim_space}
use agent_server.Floats.{Floats}
use agent_server.Lexicon.{first_non_empty, looks_like_backchannel}
use agent_server.Preview.{InputPreview}
use agent_server.Playback.Policy.{InterruptionPolicy}
use agent_server.Turn.Waits.{pcm16_audio_duration_ms}
use agent_server.BargeIn.{
  semantic_backchannel_rule, short_ack_rule, semantic_takeover_rule, complete_rule, accept_now_rule,
  accept_candidate_rule, hold_rule, decide, decide_pending, decided, evaluate_barge_in,
  barge_in_accept_reason,
}
use agent_server.BargeIn.Signals.{
  BargeInConfig, BargeInDecision, initial_decision, base_signals, signals,
  normalize_barge_in_config,
}

-- A decision that accepts exactly with the policy `hard_interrupt`, and that has a reason.
abbrev IsExplained : {F : Floats} → BargeInDecision F → Type 0
IsExplained d =
    ((d.accepted ≡ true) ↔ (d.policy ≡ InterruptionPolicy.hard_interrupt))
    × (is_empty d.reason ≡ false)

-- What an acceptance needs where the text is a likely acknowledgement: a commit, or a sure takeover.
abbrev pub AcceptsNow : {F : Floats} → BargeInDecision F → Type 0
AcceptsNow {F} d =
    (d.accept_now ≡ true)
    ⊎ ((d.acoustic_ready ≡ true)
        × (d.semantic_takeover ≡ true)
        × (F.ge d.semantic_confidence (F.hundredths 78) ≡ true))

-- The signals that a decision keeps.
abbrev Keeps : {F : Floats} → BargeInDecision F → BargeInDecision F → Type 0
Keeps d r =
    (r.backchannel_likely ≡ d.backchannel_likely)
    × (r.accept_now ≡ d.accept_now)
    × (r.acoustic_ready ≡ d.acoustic_ready)
    × (r.semantic_takeover ≡ d.semantic_takeover)
    × (r.semantic_confidence ≡ d.semantic_confidence)

abbrev IsGuarded : {F : Floats} → BargeInDecision F → Type 0
IsGuarded d = d.backchannel_likely ≡ true → d.accepted ≡ true → AcceptsNow d

module _ (F : Floats) where
  pending-IsExplained :
      (d : BargeInDecision F) (cfg : BargeInConfig) (has_text : Bool)
      → d.accepted ≡ false
      → d.policy ≡ InterruptionPolicy.ignore
      → IsExplained (decide_pending F d cfg has_text)
  unfolding decide_pending
  pending-IsExplained d cfg has_text h k = ground arith

  reason_lem : (d : BargeInDecision F) → is_empty (barge_in_accept_reason F d) ≡ false
  unfolding barge_in_accept_reason
  reason_lem d = ground arith

  decide-IsExplained :
      (d : BargeInDecision F) (cfg : BargeInConfig) (partial stable : Text)
      → d.accepted ≡ false
      → d.policy ≡ InterruptionPolicy.ignore
      → IsExplained (decide F d cfg partial stable)
  unfolding decide
  decide-IsExplained d cfg partial stable h k = ground (
    arith,
    pending-IsExplained d cfg (not (is_empty partial) || not (is_empty stable)) h k,
    reason_lem d,
  )

  pending-refuses :
      (d : BargeInDecision F) (cfg : BargeInConfig) (has_text : Bool)
      → d.accepted ≡ false
      → (decide_pending F d cfg has_text).accepted ≡ false
  unfolding decide_pending
  pending-refuses d cfg has_text h = ground arith

  takeover-parts :
      (d : BargeInDecision F)
      → semantic_takeover_rule F d ≡ true
      → (d.acoustic_ready ≡ true)
        × (d.semantic_takeover ≡ true)
        × (F.ge d.semantic_confidence (F.hundredths 78) ≡ true)
  unfolding semantic_takeover_rule
  takeover-parts d h = ground arith

  accept_now-parts : (d : BargeInDecision F) → accept_now_rule F d ≡ true → d.accept_now ≡ true
  unfolding accept_now_rule
  accept_now-parts d h = ground arith

  -- The other rules that accept are closed to a likely acknowledgement.
  closed-to_backchannel :
      (d : BargeInDecision F) (cfg : BargeInConfig) (has_best : Bool)
      → d.backchannel_likely ≡ true
      → (complete_rule F d cfg ≡ false)
        × (accept_candidate_rule F d ≡ false)
        × (hold_rule F d cfg has_best ≡ false)
  unfolding complete_rule accept_candidate_rule hold_rule
  closed-to_backchannel d cfg has_best h = ground arith

  decide-AcceptsNow :
      (d : BargeInDecision F) (cfg : BargeInConfig) (partial stable : Text)
      → d.backchannel_likely ≡ true
      → d.accepted ≡ false
      → (decide F d cfg partial stable).accepted ≡ true
      → AcceptsNow d
  unfolding decide
  decide-AcceptsNow d cfg partial stable h l k = ground (
    arith,
    takeover-parts d,
    accept_now-parts d,
    closed-to_backchannel d cfg (not (is_empty (first_non_empty stable partial))) h,
    pending-refuses d cfg (not (is_empty partial) || not (is_empty stable)) l,
  )

  pending-Keeps :
      (d : BargeInDecision F) (cfg : BargeInConfig) (has_text : Bool)
      → Keeps d (decide_pending F d cfg has_text)
  unfolding decide_pending
  pending-Keeps d cfg has_text = ground arith

  decide-Keeps :
      (d : BargeInDecision F) (cfg : BargeInConfig) (partial stable : Text)
      → Keeps d (decide F d cfg partial stable)
  unfolding decide
  decide-Keeps d cfg partial stable = by (semantic_backchannel_rule F d) _ _ _ _ (
      by (semantic_takeover_rule F d) _ _ _ _ (
        by (short_ack_rule F d cfg) _ _ _ _ (
          by (complete_rule F d cfg) _ _ _ _ (
            by (accept_now_rule F d) _ _ _ _ (
              by (accept_candidate_rule F d) _ _ _ _ (
                by (hold_rule F d cfg (not (is_empty (first_non_empty stable partial)))) _ _ _ _
                  (pending-Keeps d cfg (not (is_empty partial) || not (is_empty stable)))))))))
    where
      by :
          (rule : Bool) (policy : InterruptionPolicy) (accepted : Bool) (reason : Text)
          (rest : BargeInDecision F)
          → Keeps d rest
          → Keeps d (if rule then decided F d policy accepted reason else rest)
      by true policy accepted reason rest h = (refl, refl, refl, refl, refl)
      by false policy accepted reason rest h = h

  signals-undecided :
      (preview : InputPreview F) (audio_ms : ℤ) (cfg : BargeInConfig)
      → ((signals F preview audio_ms cfg).accepted ≡ false)
        × ((signals F preview audio_ms cfg).policy ≡ InterruptionPolicy.ignore)
  unfolding signals base_signals initial_decision
  signals-undecided preview audio_ms cfg = (refl, refl)

module _ (F : Floats) (preview : InputPreview F) (rate channels : ℤ) (cfg : BargeInConfig) where
  abbrev pub outcome : BargeInDecision F
  outcome = evaluate_barge_in F preview rate channels cfg

  abbrev pub config : BargeInConfig
  config = normalize_barge_in_config cfg

  abbrev pub sensed : BargeInDecision F
  sensed = signals F preview (pcm16_audio_duration_ms preview.audio_bytes rate channels) config

  abbrev pub ruled : BargeInDecision F
  ruled =
      decide F sensed config (trim_space preview.partial_text) (trim_space preview.stable_prefix)

  -- Behind the guards the texts decide what is a likely acknowledgement.
  pub ruled-likely :
      looks_like_backchannel
          (first_non_empty (trim_space preview.stable_prefix) (trim_space preview.partial_text))
        ≡ true
      → ruled.backchannel_likely ≡ true
  unfolding signals base_signals
  ruled-likely h =
      let kept =
        decide-Keeps F sensed config (trim_space preview.partial_text)
          (trim_space preview.stable_prefix) in
      ground (arith, kept.0, h)

  -- A decision comes from a guard, which accepts nothing, or from the rules, behind all the guards.
  pub evaluate-cases :
      ((outcome.accepted ≡ false)
        × (outcome.policy ≡ InterruptionPolicy.ignore)
        × (is_empty outcome.reason ≡ false))
      ⊎ ((outcome ≡ ruled)
          × (preview.speech_started ≡ true)
          × (pos 0 <ℤ preview.audio_bytes)
          × (pos 0 <ℤ rate)
          × (pos 0 <ℤ channels))
  unfolding evaluate_barge_in initial_decision
  evaluate-cases = ground arith

  ruled-IsExplained : IsExplained ruled
  ruled-IsExplained =
      let fresh =
        signals-undecided F preview (pcm16_audio_duration_ms preview.audio_bytes rate channels)
          config in
      decide-IsExplained F sensed config (trim_space preview.partial_text)
        (trim_space preview.stable_prefix) fresh.0 fresh.1

  ruled-IsGuarded : IsGuarded ruled
  ruled-IsGuarded h k =
      let fresh =
        signals-undecided F preview (pcm16_audio_duration_ms preview.audio_bytes rate channels)
          config in
      let kept =
        decide-Keeps F sensed config (trim_space preview.partial_text)
          (trim_space preview.stable_prefix) in
      let needed =
        decide-AcceptsNow F sensed config (trim_space preview.partial_text)
          (trim_space preview.stable_prefix) (sym kept.0 ∙ h) fresh.0 k in
      elim needed [
        | inl now ↦ inl (kept.1 ∙ now)
        | inr (audio, takeover, sure) ↦
            inr
              (kept.2 ∙ audio, kept.3 ∙ takeover, ap (λ x. F.ge x (F.hundredths 78)) kept.4 ∙ sure)
      ]

  -- A barge-in is accepted exactly if its policy is `hard_interrupt`, every decision has a reason,
  -- and an acceptance needs speech, audio and a valid format.
  pub evaluate-accepted :
      ((outcome.accepted ≡ true) ↔ (outcome.policy ≡ InterruptionPolicy.hard_interrupt))
      × (is_empty outcome.reason ≡ false)
      × (outcome.accepted ≡ true
          → (preview.speech_started ≡ true)
            × (pos 0 <ℤ preview.audio_bytes)
            × (pos 0 <ℤ rate)
            × (pos 0 <ℤ channels))
  evaluate-accepted = elim evaluate-cases [
    | inl (a, p, r) ↦ (ground (arith, a, p), r, λ yes. absurd (ground (arith, a, yes)))
    | inr (e, speech, audio, r, c) ↦
        let explained = subst IsExplained (sym e) ruled-IsExplained in
        (explained.0, explained.1, λ yes. (speech, audio, r, c))
  ]

  -- What sounds like an acknowledgement interrupts the reply only if the turn may be committed now,
  -- or if the semantic judge is sure of a takeover and enough audio was heard; however long it goes
  -- on.
  pub evaluate-backchannel :
      outcome.backchannel_likely ≡ true → outcome.accepted ≡ true → AcceptsNow outcome
  evaluate-backchannel h k = elim evaluate-cases [
    | inl (a, p, r) ↦ absurd (ground (arith, a, k))
    | inr (e, speech, audio, r, c) ↦ subst IsGuarded (sym e) ruled-IsGuarded h k
  ]
