-- ===== src/Playback/Turn.antt =====
-- The turn that is being played: `orchestratedTurn` of internal/voice/session_orchestrator.go and
-- the helpers that change it.
use agent_server.Prelude.{
  ℕ, Bool, true, false, not, ◌&&◌, ◌||◌, List, [], is_empty, length, if◌then◌else◌, leb, ltb,
  Option, none, some, ℤ, pos, leb_ℤ, ltb_ℤ, sub64,
}
use agent_server.Clock.{Duration}
use agent_server.Text.{Text, text_eq, has_prefix, trim_space}
use agent_server.Floats.{Floats}
use agent_server.Playback.Policy.{
  InterruptionPolicy, HeardTextSource, HeardTextConfidence, HeardTextPrecisionTier,
  HeardTextBoundary, policy_text, normalize_interruption_policy, normalize_heard_text_source,
  heard_text_confidence_for_source, heard_text_precision_tier_for_source, soft_recovery_policy_rank,
  soft_recovery_source_rank, is_segment_mark, is_ignore,
}
use agent_server.Playback.Heard.{
  heard_text_for_playback, heard_ratio_percent, has_exact_heard_text_prefix,
  heard_text_boundary_for_texts, missed_text_for_texts,
}

abbrev pub Metadata : Type 0
Metadata = List (Text × Text)

-- The fields of `TurnRequest` that the orchestrator reads itself; all others only pass through to
-- the memory record.
pub record TurnRequest : Type 0 where
  pub turn_id : Text
  pub metadata : Metadata

pub record SoftRecoverySnapshot : Type 0 where
  pub policy : InterruptionPolicy
  pub reason : Text
  pub heard_text : Text
  pub heard_text_boundary : HeardTextBoundary
  pub heard_source : HeardTextSource
  pub heard_confidence : HeardTextConfidence
  pub heard_precision : HeardTextPrecisionTier
  pub played_duration : Duration

pub record OrchestratedTurn : Type 0 where
  pub request : TurnRequest
  pub input_text : Text
  pub metadata : Metadata
  pub response_text : Text
  pub delivered_text : Text
  pub heard_text : Text
  pub playback_active : Bool
  pub playback_completed : Bool
  pub response_interrupted : Bool
  pub response_truncated : Bool
  pub chunk_duration : Duration
  pub planned_duration : Duration
  pub played_duration : Duration
  pub interruption_policy : InterruptionPolicy
  pub interruption_reason : Text
  pub heard_text_boundary : HeardTextBoundary
  pub heard_source : HeardTextSource
  pub heard_confidence : HeardTextConfidence
  pub heard_precision_tier : HeardTextPrecisionTier
  pub prefer_client_facts : Bool
  pub soft_recovery : Option SoftRecoverySnapshot

-- The three fields that follow from a source.
abbrev set_source : HeardTextSource → OrchestratedTurn → OrchestratedTurn
set_source source t = record t {
  heard_source = source;
  heard_confidence = heard_text_confidence_for_source source;
  heard_precision_tier = heard_text_precision_tier_for_source source;
}

abbrev pub raise_played : Duration → OrchestratedTurn → OrchestratedTurn
raise_played played t = record t {
  played_duration = if ltb_ℤ t.played_duration played then played else t.played_duration;
}

-- `strings.TrimSpace(reason)`, or the policy's name where that is empty.
abbrev pub reason_or_policy : Text → InterruptionPolicy → Text
reason_or_policy reason policy =
    if is_empty (trim_space reason) then policy_text policy else trim_space reason

unfoldable pub record_interruption_policy_locked :
    InterruptionPolicy → Text → OrchestratedTurn → OrchestratedTurn
record_interruption_policy_locked policy reason t =
    let normalized = normalize_interruption_policy policy in
    if is_ignore normalized then t else record t {
      interruption_policy = normalized;
      interruption_reason = reason_or_policy reason normalized;
    }

unfoldable pub usable_soft_recovery_boundary : Text → Text → Bool
usable_soft_recovery_boundary delivered_text heard_text =
    let heard = trim_space heard_text in
    let delivered = trim_space delivered_text in
    not (is_empty heard)
    && not (is_empty delivered)
    && has_prefix delivered heard
    && not (text_eq heard delivered)

unfoldable pub better_soft_recovery_boundary :
    Text → SoftRecoverySnapshot → SoftRecoverySnapshot → Bool
better_soft_recovery_boundary delivered_text current candidate =
    let current_len = length (trim_space current.heard_text) in
    let candidate_len = length (trim_space candidate.heard_text) in
    if not (usable_soft_recovery_boundary delivered_text candidate.heard_text)
    then false
    else if not (usable_soft_recovery_boundary delivered_text current.heard_text)
    then true
    else if ltb current_len candidate_len
    then true
    else if ltb candidate_len current_len
    then false
    else ltb (soft_recovery_source_rank current.heard_source)
        (soft_recovery_source_rank candidate.heard_source)

unfoldable pub preferred_soft_recovery_boundary :
    Text → SoftRecoverySnapshot → SoftRecoverySnapshot → SoftRecoverySnapshot
preferred_soft_recovery_boundary delivered_text soft_recovery pre_completion =
    if better_soft_recovery_boundary delivered_text soft_recovery pre_completion
    then pre_completion
    else soft_recovery

-- Whether the recovery point that is held stays.
unfoldable pub keeps_existing : SoftRecoverySnapshot → InterruptionPolicy → Duration → Bool
keeps_existing existing policy played =
    ltb_ℤ existing.played_duration played
    || leb_ℤ existing.played_duration played
      && leb_ℤ played existing.played_duration
      && leb (soft_recovery_policy_rank policy) (soft_recovery_policy_rank existing.policy)

abbrev pub keeps_recovery : Option SoftRecoverySnapshot → InterruptionPolicy → Duration → Bool
keeps_recovery none policy played = false
keeps_recovery (some existing) policy played = keeps_existing existing policy played

-- Policy and reason are the zero values of the struct.
unfoldable pub current_playback_boundary_snapshot_locked : OrchestratedTurn → SoftRecoverySnapshot
current_playback_boundary_snapshot_locked t = record {
  policy = InterruptionPolicy.other [];
  reason = [];
  heard_text = trim_space t.heard_text;
  heard_text_boundary = heard_text_boundary_for_texts t.delivered_text t.heard_text;
  heard_source = normalize_heard_text_source t.heard_source HeardTextSource.unknown;
  heard_confidence = heard_text_confidence_for_source t.heard_source;
  heard_precision = heard_text_precision_tier_for_source t.heard_source;
  played_duration = t.played_duration;
}

-- The rule of a soft policy, from the runes, the percentage and the time that remain.
unfoldable pub limit_rule : InterruptionPolicy → ℕ → ℤ → Duration → Bool
limit_rule InterruptionPolicy.duck_only runes ratio remaining =
    leb 2 runes || leb_ℤ (pos 12) ratio || leb_ℤ (pos 260000000) remaining
limit_rule InterruptionPolicy.backchannel runes ratio remaining =
    leb 8 runes || leb 4 runes && (leb_ℤ (pos 30) ratio || leb_ℤ (pos 650000000) remaining)
limit_rule _ runes ratio remaining = false

abbrev pub limit_to : SoftRecoverySnapshot → OrchestratedTurn → OrchestratedTurn
limit_to selected t =
    set_source (normalize_heard_text_source selected.heard_source HeardTextSource.unknown)
      (record t {
        heard_text = trim_space selected.heard_text;
        heard_text_boundary = heard_text_boundary_for_texts t.delivered_text selected.heard_text;
      })

module _ (F : Floats) where
  unfoldable pub update_heard_text_locked :
      Duration → HeardTextSource → OrchestratedTurn → OrchestratedTurn
  update_heard_text_locked played_duration source t =
      let u = raise_played played_duration t in
      let heard = heard_text_for_playback F u.delivered_text u.played_duration u.planned_duration in
      set_source (normalize_heard_text_source source u.heard_source) (record u {
        heard_text = heard;
        heard_text_boundary = heard_text_boundary_for_texts u.delivered_text heard;
      })

  unfoldable pub update_heard_text_exact_locked :
      Duration → Text → HeardTextSource → OrchestratedTurn → OrchestratedTurn
  update_heard_text_exact_locked played_duration heard_text source t =
      let u = raise_played played_duration t in
      let heard = trim_space heard_text in
      let delivered = trim_space t.delivered_text in
      if is_empty heard || is_empty delivered || not (has_prefix delivered heard)
      then update_heard_text_locked played_duration source u
      else set_source (normalize_heard_text_source source u.heard_source) (record u {
        heard_text = heard;
        heard_text_boundary = heard_text_boundary_for_texts delivered heard;
      })

  -- The heard text is brought up to date, unless a segment mark gave it exactly.
  unfoldable pub refresh_heard_text : OrchestratedTurn → OrchestratedTurn
  refresh_heard_text t =
      if is_segment_mark t.heard_source && has_exact_heard_text_prefix t.delivered_text t.heard_text
      then t
      else update_heard_text_locked t.played_duration t.heard_source t

  unfoldable pub capture_soft_recovery_snapshot_locked :
      InterruptionPolicy → Text → OrchestratedTurn → OrchestratedTurn
  capture_soft_recovery_snapshot_locked policy reason t =
      let u = refresh_heard_text t in
      if not t.playback_active
      then t
      else if keeps_recovery u.soft_recovery policy u.played_duration
      then u
      else record u {
        soft_recovery = some (record {
          policy = policy;
          reason = reason;
          heard_text = u.heard_text;
          heard_text_boundary = u.heard_text_boundary;
          heard_source = u.heard_source;
          heard_confidence = u.heard_confidence;
          heard_precision = u.heard_precision_tier;
          played_duration = u.played_duration;
        });
      }

  unfoldable pub should_limit_completed_playback_to_soft_recovery :
      OrchestratedTurn → SoftRecoverySnapshot → Bool
  should_limit_completed_playback_to_soft_recovery t s =
      let delivered = trim_space t.delivered_text in
      let missed_tail = missed_text_for_texts delivered s.heard_text in
      let remaining =
        if not (leb_ℤ t.planned_duration (pos 0)) && ltb_ℤ s.played_duration t.planned_duration
        then sub64 t.planned_duration s.played_duration
        else pos 0 in
      let heard_ratio = heard_ratio_percent F delivered s.heard_text in
      let ratio = sub64 (pos 100) (if ltb_ℤ heard_ratio (pos 0) then pos 0 else heard_ratio) in
      not (is_empty delivered)
      && not (is_empty missed_tail)
      && limit_rule s.policy (length missed_tail) ratio remaining

  abbrev pub apply_recovery :
      Option SoftRecoverySnapshot → SoftRecoverySnapshot → OrchestratedTurn → OrchestratedTurn
  apply_recovery none pre_completion t = t
  apply_recovery (some s) pre_completion t =
      if should_limit_completed_playback_to_soft_recovery t s
      then limit_to (preferred_soft_recovery_boundary t.delivered_text s pre_completion) t
      else t

  unfoldable pub apply_soft_recovery_outcome_locked :
      SoftRecoverySnapshot → OrchestratedTurn → OrchestratedTurn
  apply_soft_recovery_outcome_locked pre_completion t =
      apply_recovery t.soft_recovery pre_completion t
