-- ===== src/BargeIn/Signals.antt =====
-- The signals of a barge-in, and its scores: the helpers of `EvaluateBargeIn` in
-- internal/voice/barge_in.go.
use agent_server.Prelude.{
  ℕ, Bool, true, false, not, ◌&&◌, ◌||◌, [], is_empty, length, if◌then◌else◌, ℤ, pos, leb_ℤ, ltb_ℤ,
  quot,
}
use agent_server.Text.{Text, codes, text_eq, trim_space, to_lower}
use agent_server.Floats.{Floats, clamp_unit}
use agent_server.Lexicon.{
  first_non_empty, looks_like_backchannel, looks_like_takeover_lexicon, looks_lexically_complete,
}
use agent_server.Preview.{InputPreview, TurnArbitrationStage}
use agent_server.Turn.Waits.{positive_or}
use agent_server.Playback.Policy.{InterruptionPolicy}

pub record BargeInConfig : Type 0 where
  pub min_audio_ms : ℤ
  pub incomplete_hold_ms : ℤ

-- The intents of internal/voice/semantic_judge.go; `unset` is the empty string.
pub data SemanticIntent : Type 0 where
  unset unknown backchannel takeover correction request question continuation other : SemanticIntent

pub record BargeInDecision (F : Floats) : Type 0 where
  pub accepted : Bool
  pub policy : InterruptionPolicy
  pub reason : Text
  pub audio_ms : ℤ
  pub lexically_complete : Bool
  pub min_audio_ms : ℤ
  pub hold_audio_ms : ℤ
  pub acoustic_ready : Bool
  pub semantic_ready : Bool
  pub semantic_complete : Bool
  pub semantic_intent : SemanticIntent
  pub semantic_confidence : F.Float
  pub semantic_takeover : Bool
  pub accept_candidate : Bool
  pub accept_now : Bool
  pub endpoint_hinted : Bool
  pub backchannel_likely : Bool
  pub takeover_lexicon : Bool
  pub turn_stage : TurnArbitrationStage
  pub stability : F.Float
  pub stable_prefix_runes : ℤ
  pub intrusion_score : F.Float
  pub takeover_score : F.Float

unfoldable pub normalize_barge_in_config : BargeInConfig → BargeInConfig
normalize_barge_in_config cfg = record {
  min_audio_ms = positive_or cfg.min_audio_ms (pos 120);
  incomplete_hold_ms = positive_or cfg.incomplete_hold_ms (pos 240);
}

unfoldable pub normalize_semantic_intent : Text → SemanticIntent
normalize_semantic_intent value =
    let v = to_lower (trim_space value) in
    if text_eq v (codes "backchannel")
    then SemanticIntent.backchannel
    else if text_eq v (codes "takeover")
    then SemanticIntent.takeover
    else if text_eq v (codes "correction")
    then SemanticIntent.correction
    else if text_eq v (codes "request")
    then SemanticIntent.request
    else if text_eq v (codes "question")
    then SemanticIntent.question
    else if text_eq v (codes "continue")
    then SemanticIntent.continuation
    else if text_eq v (codes "other")
    then SemanticIntent.other
    else SemanticIntent.unknown

-- On a normal form, which is all that it is called with.
unfoldable pub semantic_intent_is_takeover : SemanticIntent → Bool
semantic_intent_is_takeover SemanticIntent.takeover = true
semantic_intent_is_takeover SemanticIntent.correction = true
semantic_intent_is_takeover SemanticIntent.request = true
semantic_intent_is_takeover SemanticIntent.question = true
semantic_intent_is_takeover SemanticIntent.continuation = true
semantic_intent_is_takeover _ = false

abbrev pub is_backchannel_intent : SemanticIntent → Bool
is_backchannel_intent SemanticIntent.backchannel = true
is_backchannel_intent _ = false

abbrev pub is_accept_candidate : TurnArbitrationStage → Bool
is_accept_candidate TurnArbitrationStage.accept_candidate = true
is_accept_candidate _ = false

abbrev pub is_accept_now : TurnArbitrationStage → Bool
is_accept_now TurnArbitrationStage.accept_now = true
is_accept_now _ = false

unfoldable pub max_int : ℤ → ℤ → ℤ
max_int a b = if ltb_ℤ b a then a else b

unfoldable pub barge_in_backchannel_min_audio_ms : ℤ → ℤ
barge_in_backchannel_min_audio_ms min_audio_ms =
    let threshold = quot min_audio_ms 2 in
    if leb_ℤ min_audio_ms (pos 0)
    then pos 60
    else if ltb_ℤ threshold (pos 60)
    then pos 60
    else threshold

unfoldable pub barge_in_acoustic_gate_min_audio_ms : ℤ → ℤ
barge_in_acoustic_gate_min_audio_ms min_audio_ms =
    let half = quot min_audio_ms 2 in
    let threshold = if ltb_ℤ min_audio_ms half then min_audio_ms else half in
    if leb_ℤ min_audio_ms (pos 0)
    then pos 60
    else if ltb_ℤ threshold (pos 60)
    then (if ltb_ℤ min_audio_ms (pos 60) then min_audio_ms else pos 60)
    else threshold

unfoldable pub normalized_barge_in_turn_stage : {F : Floats} → InputPreview F → TurnArbitrationStage
normalized_barge_in_turn_stage preview = elim preview.arbitration.stage [
  | TurnArbitrationStage.unset ↦
      if preview.commit_suggested
      then TurnArbitrationStage.accept_now
      else if not (is_empty (trim_space preview.endpoint_reason))
      then TurnArbitrationStage.accept_candidate
      else TurnArbitrationStage.preview_only
  | stage ↦ stage
]

module _ (F : Floats) where
  open F use {Float, of_int, hundredths, add, sub, mul, div, lt, ge}

  -- `if test { score += n / 100 }`, and with `-=`.
  abbrev add_if : Bool → ℕ → Float → Float
  add_if test n score = if test then add score (hundredths n) else score

  abbrev sub_if : Bool → ℕ → Float → Float
  sub_if test n score = if test then sub score (hundredths n) else score

  unfoldable pub barge_in_semantic_ready : InputPreview F → Text → Text → BargeInDecision F → Bool
  barge_in_semantic_ready preview best_text stable_prefix d =
      let a = preview.arbitration in
      not (is_empty (trim_space best_text))
      && ((a.semantic_ready && ge a.semantic_confidence (hundredths 68))
          || (a.draft_allowed || a.accept_candidate || a.accept_now)
          || (preview.utterance_complete || d.lexically_complete || d.takeover_lexicon
              || d.semantic_takeover)
          || (not (is_empty stable_prefix)
              && (ge d.stability (hundredths 60) || leb_ℤ (pos 4) d.stable_prefix_runes)))

  unfoldable pub barge_in_intrusion_score :
      ℤ → BargeInConfig → BargeInDecision F → Text → Text → Float
  barge_in_intrusion_score audio_ms cfg d partial_text stable_prefix =
      let gate = max_int (barge_in_acoustic_gate_min_audio_ms cfg.min_audio_ms) (pos 1) in
      let share = clamp_unit F (div (of_int audio_ms) (of_int gate)) in
      let s0 =
        if ltb_ℤ (pos 0) audio_ms
        then add (hundredths 0) (mul (hundredths 35) share)
        else hundredths 0 in
      let s1 = add_if (not (is_empty partial_text) || not (is_empty stable_prefix)) 15 s0 in
      let s2 = add_if d.acoustic_ready 10 s1 in
      let s3 = add_if d.endpoint_hinted 10 s2 in
      let s4 = add_if d.accept_candidate 10 s3 in
      let s5 = add_if d.accept_now 10 s4 in
      let s6 = add_if (leb_ℤ (pos 4) d.stable_prefix_runes) 5 s5 in
      let s7 = add_if (ge d.semantic_confidence (hundredths 68)) 10 s6 in
      clamp_unit F (sub_if d.backchannel_likely 15 s7)

  unfoldable pub barge_in_takeover_score : BargeInDecision F → Float
  barge_in_takeover_score d =
      let s1 = add_if d.lexically_complete 30 (hundredths 0) in
      let s2 = add_if d.semantic_ready 20 s1 in
      let s3 = add_if d.accept_candidate 15 s2 in
      let s4 = add_if d.accept_now 20 s3 in
      let s5 = add_if d.takeover_lexicon 20 s4 in
      let s6 = add_if d.semantic_takeover 25 s5 in
      let s7 = add_if d.semantic_complete 10 s6 in
      let s8 = add_if d.endpoint_hinted 5 s7 in
      let s9 = sub_if d.backchannel_likely 45 s8 in
      clamp_unit F (add_if (ge d.stability (hundredths 82)) 10 s9)

  -- The decision before any signal is read.
  unfoldable pub initial_decision : BargeInConfig → BargeInDecision F
  initial_decision cfg = record {
    accepted = false;
    policy = InterruptionPolicy.ignore;
    reason = [];
    audio_ms = pos 0;
    lexically_complete = false;
    min_audio_ms = cfg.min_audio_ms;
    hold_audio_ms = cfg.incomplete_hold_ms;
    acoustic_ready = false;
    semantic_ready = false;
    semantic_complete = false;
    semantic_intent = SemanticIntent.unset;
    semantic_confidence = hundredths 0;
    semantic_takeover = false;
    accept_candidate = false;
    accept_now = false;
    endpoint_hinted = false;
    backchannel_likely = false;
    takeover_lexicon = false;
    turn_stage = TurnArbitrationStage.unset;
    stability = hundredths 0;
    stable_prefix_runes = pos 0;
    intrusion_score = hundredths 0;
    takeover_score = hundredths 0;
  }

  -- The signals of a preview, up to the lexical and the acoustic ones.
  unfoldable pub base_signals : InputPreview F → ℤ → BargeInConfig → BargeInDecision F
  base_signals preview audio_ms cfg =
      let a = preview.arbitration in
      let stable_prefix = trim_space preview.stable_prefix in
      let best_text = first_non_empty stable_prefix (trim_space preview.partial_text) in
      let stage = normalized_barge_in_turn_stage preview in
      let hinted = a.endpoint_hinted || not (is_empty (trim_space preview.endpoint_reason)) in
      let intent = normalize_semantic_intent a.semantic_intent in
      let confidence = clamp_unit F a.semantic_confidence in
      record (initial_decision cfg) {
        audio_ms = audio_ms;
        turn_stage = stage;
        stability = clamp_unit F a.stability;
        stable_prefix_runes = pos (length stable_prefix);
        endpoint_hinted = hinted;
        accept_candidate =
            a.accept_candidate || is_accept_candidate stage || is_accept_now stage || hinted;
        accept_now = a.accept_now || preview.commit_suggested || is_accept_now stage;
        semantic_complete = a.semantic_complete;
        semantic_intent = intent;
        semantic_confidence = confidence;
        semantic_takeover = semantic_intent_is_takeover intent;
        backchannel_likely =
            looks_like_backchannel best_text
            || is_backchannel_intent intent && ge confidence (hundredths 68);
        takeover_lexicon = looks_like_takeover_lexicon best_text;
        lexically_complete = looks_lexically_complete best_text;
        acoustic_ready = leb_ℤ (barge_in_acoustic_gate_min_audio_ms cfg.min_audio_ms) audio_ms;
      }

  -- And the readiness and the scores, which are computed from them.
  unfoldable pub signals : InputPreview F → ℤ → BargeInConfig → BargeInDecision F
  signals preview audio_ms cfg =
      let partial_text = trim_space preview.partial_text in
      let stable_prefix = trim_space preview.stable_prefix in
      let best_text = first_non_empty stable_prefix partial_text in
      let base = base_signals preview audio_ms cfg in
      let ready = record base {
        semantic_ready = barge_in_semantic_ready preview best_text stable_prefix base;
      } in
      let scored = record ready {
        intrusion_score = barge_in_intrusion_score audio_ms cfg ready partial_text stable_prefix;
      } in
      record scored { takeover_score = barge_in_takeover_score scored }
