-- ===== src/Preview.antt =====
-- The data that the preview of a turn consists of: internal/voice/contracts.go. Of `TurnArbitration`
-- the fields are kept that the turn detector and the barge-in policy read or write; the labels that
-- the semantic judge and the slot parser only attach for display are left out.
use agent_server.Prelude.{Bool, false, ℤ, pos, []}
use agent_server.Text.{Text}
use agent_server.Floats.{Floats}
use agent_server.Lexicon.{TaskFamily, unknown}

-- `unset` is the empty string.
pub data TurnArbitrationStage : Type 0 where
  unset preview_only prewarm_allowed draft_allowed : TurnArbitrationStage
  accept_candidate accept_now wait_for_more : TurnArbitrationStage

-- `unset` is the empty string.
pub data SlotActionability : Type 0 where
  unset observe_only wait_more draft_ok clarify_needed act_candidate : SlotActionability

pub record TurnArbitration (F : Floats) : Type 0 where
  pub stage : TurnArbitrationStage
  pub reason : Text
  pub stability : F.Float
  pub stable_for_ms : ℤ
  pub audio_ms : ℤ
  pub silence_ms : ℤ
  pub min_audio_ms : ℤ
  pub base_wait_ms : ℤ
  pub rule_adjust_ms : ℤ
  pub punctuation_adjust_ms : ℤ
  pub semantic_wait_delta_ms : ℤ
  pub slot_guard_adjust_ms : ℤ
  pub effective_wait_ms : ℤ
  pub required_silence_ms : ℤ
  pub candidate_ready : Bool
  pub draft_ready : Bool
  pub accept_ready : Bool
  pub prewarm_allowed : Bool
  pub draft_allowed : Bool
  pub accept_candidate : Bool
  pub accept_now : Bool
  pub endpoint_hinted : Bool
  pub semantic_ready : Bool
  pub semantic_complete : Bool
  pub semantic_intent : Text
  pub semantic_confidence : F.Float
  pub task_family : TaskFamily
  pub slot_constraint_required : Bool
  pub slot_actionability : SlotActionability
  pub slot_risk_confirm_required : Bool

pub record InputPreview (F : Floats) : Type 0 where
  pub partial_text : Text
  pub stable_prefix : Text
  pub endpoint_reason : Text
  pub audio_bytes : ℤ
  pub commit_suggested : Bool
  pub speech_started : Bool
  pub utterance_complete : Bool
  pub arbitration : TurnArbitration F

-- The zero value of the struct; `unknown` stands for the empty task family.
unfoldable pub zero_arbitration : (F : Floats) → TurnArbitration F
zero_arbitration F = record {
  stage = TurnArbitrationStage.unset;
  reason = [];
  stability = F.hundredths 0;
  stable_for_ms = pos 0;
  audio_ms = pos 0;
  silence_ms = pos 0;
  min_audio_ms = pos 0;
  base_wait_ms = pos 0;
  rule_adjust_ms = pos 0;
  punctuation_adjust_ms = pos 0;
  semantic_wait_delta_ms = pos 0;
  slot_guard_adjust_ms = pos 0;
  effective_wait_ms = pos 0;
  required_silence_ms = pos 0;
  candidate_ready = false;
  draft_ready = false;
  accept_ready = false;
  prewarm_allowed = false;
  draft_allowed = false;
  accept_candidate = false;
  accept_now = false;
  endpoint_hinted = false;
  semantic_ready = false;
  semantic_complete = false;
  semantic_intent = [];
  semantic_confidence = F.hundredths 0;
  task_family = unknown;
  slot_constraint_required = false;
  slot_actionability = SlotActionability.unset;
  slot_risk_confirm_required = false;
}
