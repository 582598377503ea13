-- ===== src/Playback/Policy.antt =====
-- The string types of internal/voice/barge_in.go and internal/voice/session_orchestrator.go that a
-- playback is described by, and their normal forms.
use agent_server.Prelude.{ℕ, Bool, true, false}
use agent_server.Text.{Text, codes}

-- `other` is any string that is not one of the constants, the empty string included.
pub data InterruptionPolicy : Type 0 where
  ignore backchannel duck_only hard_interrupt : InterruptionPolicy
  other : Text → InterruptionPolicy

-- `unknown` is the empty string.
pub data HeardTextSource : Type 0 where
  unknown heuristic_bytes playback_started segment_mark playback_completed : HeardTextSource
  other : Text → HeardTextSource

pub data HeardTextConfidence : Type 0 where
  unknown low medium high : HeardTextConfidence

pub data HeardTextPrecisionTier : Type 0 where
  unknown tier0 tier1 : HeardTextPrecisionTier

-- `unset` is the empty string of a result that no playback filled in.
pub data HeardTextBoundary : Type 0 where
  unset none_heard prefix full : HeardTextBoundary

abbrev pub policy_text : InterruptionPolicy → Text
policy_text InterruptionPolicy.ignore = codes "ignore"
policy_text InterruptionPolicy.backchannel = codes "backchannel"
policy_text InterruptionPolicy.duck_only = codes "duck_only"
policy_text InterruptionPolicy.hard_interrupt = codes "hard_interrupt"
policy_text (InterruptionPolicy.other t) = t

unfoldable pub normalize_interruption_policy : InterruptionPolicy → InterruptionPolicy
normalize_interruption_policy (InterruptionPolicy.other t) = InterruptionPolicy.ignore
normalize_interruption_policy p = p

unfoldable pub normalize_heard_text_source : HeardTextSource → HeardTextSource → HeardTextSource
normalize_heard_text_source HeardTextSource.unknown fallback = fallback
normalize_heard_text_source (HeardTextSource.other t) fallback = fallback
normalize_heard_text_source source fallback = source

unfoldable pub heard_text_confidence_for_source : HeardTextSource → HeardTextConfidence
heard_text_confidence_for_source HeardTextSource.playback_completed = HeardTextConfidence.high
heard_text_confidence_for_source HeardTextSource.playback_started = HeardTextConfidence.medium
heard_text_confidence_for_source HeardTextSource.segment_mark = HeardTextConfidence.medium
heard_text_confidence_for_source HeardTextSource.heuristic_bytes = HeardTextConfidence.low
heard_text_confidence_for_source _ = HeardTextConfidence.unknown

unfoldable pub heard_text_precision_tier_for_source : HeardTextSource → HeardTextPrecisionTier
heard_text_precision_tier_for_source HeardTextSource.playback_completed =
    HeardTextPrecisionTier.tier1
heard_text_precision_tier_for_source HeardTextSource.playback_started = HeardTextPrecisionTier.tier1
heard_text_precision_tier_for_source HeardTextSource.segment_mark = HeardTextPrecisionTier.tier1
heard_text_precision_tier_for_source HeardTextSource.heuristic_bytes = HeardTextPrecisionTier.tier0
heard_text_precision_tier_for_source _ = HeardTextPrecisionTier.unknown

unfoldable pub soft_recovery_policy_rank : InterruptionPolicy → ℕ
soft_recovery_policy_rank InterruptionPolicy.duck_only = 2
soft_recovery_policy_rank InterruptionPolicy.backchannel = 1
soft_recovery_policy_rank _ = 0

unfoldable pub soft_recovery_source_rank : HeardTextSource → ℕ
soft_recovery_source_rank HeardTextSource.segment_mark = 4
soft_recovery_source_rank HeardTextSource.playback_completed = 3
soft_recovery_source_rank HeardTextSource.playback_started = 2
soft_recovery_source_rank HeardTextSource.heuristic_bytes = 1
soft_recovery_source_rank _ = 0

abbrev pub is_segment_mark : HeardTextSource → Bool
is_segment_mark HeardTextSource.segment_mark = true
is_segment_mark _ = false

abbrev pub is_playback_completed : HeardTextSource → Bool
is_playback_completed HeardTextSource.playback_completed = true
is_playback_completed _ = false

abbrev pub is_ignore : InterruptionPolicy → Bool
is_ignore InterruptionPolicy.ignore = true
is_ignore _ = false

abbrev pub is_prefix_boundary : HeardTextBoundary → Bool
is_prefix_boundary HeardTextBoundary.prefix = true
is_prefix_boundary _ = false

-- The policies that `RecordInterruptionPolicy` takes a recovery point for.
abbrev pub is_soft : InterruptionPolicy → Bool
is_soft InterruptionPolicy.backchannel = true
is_soft InterruptionPolicy.duck_only = true
is_soft _ = false
