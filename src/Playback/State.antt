-- ===== src/Playback/State.antt =====
-- The state of a playback and the calls that need no arithmetic: the types, and the first methods, of
-- internal/voice/session_orchestrator.go.
use agent_server.Prelude.{
  Bool, true, false, not, List, [], is_empty, if◌then◌else◌, Option, none, some, ℤ, pos,
}
use agent_server.Clock.{Duration}
use agent_server.Text.{Text, trim_space}
use agent_server.Playback.Policy.{
  InterruptionPolicy, HeardTextSource, HeardTextConfidence, HeardTextPrecisionTier,
  HeardTextBoundary, normalize_interruption_policy, is_ignore,
}
use agent_server.Playback.Heard.{heard_text_boundary_for_texts}
use agent_server.Playback.Turn.{TurnRequest, OrchestratedTurn, Metadata, reason_or_policy}

pub record PlaybackOutcome : Type 0 where
  pub turn_id : Text
  pub delivered_text : Text
  pub heard_text : Text
  pub missed_text : Text
  pub resume_anchor : Text
  pub heard_text_boundary : HeardTextBoundary
  pub heard_source : HeardTextSource
  pub heard_confidence : HeardTextConfidence
  pub heard_precision_tier : HeardTextPrecisionTier
  pub heard_ratio_percent : ℤ
  pub playback_completed : Bool
  pub response_interrupted : Bool
  pub response_truncated : Bool
  pub interruption_policy : InterruptionPolicy
  pub interruption_reason : Text
  pub played_duration : Duration
  pub planned_duration : Duration

pub record PlaybackInterruption : Type 0 where
  pub policy : InterruptionPolicy
  pub reason : Text
  pub heard_text : Text
  pub heard_text_boundary : HeardTextBoundary
  pub played_duration : Duration
  pub planned_duration : Duration
  pub truncated : Bool

-- Of `agent.MemoryRecord`, what the orchestrator sets; the identifiers of session, device and user
-- are copied from the request and its metadata.
pub record MemoryRecord : Type 0 where
  pub turn_id : Text
  pub user_text : Text
  pub response_text : Text
  pub delivered_text : Text
  pub heard_text : Text
  pub response_interrupted : Bool
  pub response_truncated : Bool
  pub playback_completed : Bool
  pub metadata : Metadata

-- The preview of `SessionOrchestrator` is a part of its own, which no playback call touches.
pub record SessionOrchestrator : Type 0 where
  pub turn : Option OrchestratedTurn
  pub last_playback_outcome : Option PlaybackOutcome
  pub saved : List MemoryRecord

unfoldable pub new_session_orchestrator : SessionOrchestrator
new_session_orchestrator = record { turn = none; last_playback_outcome = none; saved = [] }

-- The turn that `PrepareTurn` makes for a new identifier.
unfoldable pub fresh_turn : TurnRequest → Text → Text → OrchestratedTurn
fresh_turn request input_text response_text = record {
  request = request;
  input_text = trim_space input_text;
  metadata = request.metadata;
  response_text = trim_space response_text;
  delivered_text = [];
  heard_text = [];
  playback_active = false;
  playback_completed = false;
  response_interrupted = false;
  response_truncated = false;
  chunk_duration = pos 0;
  planned_duration = pos 0;
  played_duration = pos 0;
  interruption_policy = InterruptionPolicy.other [];
  interruption_reason = [];
  heard_text_boundary = HeardTextBoundary.none_heard;
  heard_source = HeardTextSource.unknown;
  heard_confidence = HeardTextConfidence.unknown;
  heard_precision_tier = HeardTextPrecisionTier.unknown;
  prefer_client_facts = false;
  soft_recovery = none;
}

-- `if trimmed := strings.TrimSpace(text); trimmed != "" { field = trimmed }`
abbrev pub trimmed_or : Text → Text → Text
trimmed_or text field = if is_empty (trim_space text) then field else trim_space text

unfoldable pub started_turn :
    Text → Duration → Duration → Bool → OrchestratedTurn → OrchestratedTurn
started_turn delivered_text chunk_duration planned_duration prefer_client_facts t = record t {
  delivered_text = trim_space delivered_text;
  chunk_duration = chunk_duration;
  planned_duration = planned_duration;
  played_duration = pos 0;
  playback_active = true;
  playback_completed = false;
  response_interrupted = false;
  response_truncated = false;
  heard_text = [];
  heard_text_boundary = HeardTextBoundary.none_heard;
  heard_source = HeardTextSource.unknown;
  heard_confidence = HeardTextConfidence.unknown;
  heard_precision_tier = HeardTextPrecisionTier.unknown;
  prefer_client_facts = prefer_client_facts;
  interruption_policy = InterruptionPolicy.ignore;
  interruption_reason = [];
  soft_recovery = none;
}

-- A method that does nothing without a turn.
abbrev pub on_turn :
    (OrchestratedTurn → OrchestratedTurn) → SessionOrchestrator → SessionOrchestrator
on_turn change o = elim o.turn [ none ↦ o | some t ↦ record o { turn = some (change t) } ]

-- Whole text heard where there is a text; the boundary follows.
unfoldable pub heard_whole : OrchestratedTurn → OrchestratedTurn
heard_whole t =
    let heard = if is_empty (trim_space t.delivered_text) then t.heard_text else t.delivered_text in
    record t {
      heard_text = heard;
      heard_text_boundary = heard_text_boundary_for_texts t.delivered_text heard;
    }

unfoldable pub finalized_turn : Text → OrchestratedTurn → OrchestratedTurn
finalized_turn delivered_text t =
    let delivered = trim_space delivered_text in
    record t {
      delivered_text = delivered;
      heard_text = delivered;
      playback_completed = true;
      playback_active = false;
      heard_text_boundary = heard_text_boundary_for_texts delivered delivered;
    }

unfoldable pub start_playback_with_options :
    Text → Duration → Duration → Bool → SessionOrchestrator → SessionOrchestrator
start_playback_with_options delivered_text chunk_duration planned_duration prefer_client_facts =
    on_turn (started_turn delivered_text chunk_duration planned_duration prefer_client_facts)

unfoldable pub started_fact_turn : OrchestratedTurn → OrchestratedTurn
started_fact_turn t = if not t.playback_active then t else record t {
  heard_source = HeardTextSource.playback_started;
  heard_confidence = HeardTextConfidence.medium;
  heard_precision_tier = HeardTextPrecisionTier.tier1;
}

unfoldable pub observe_playback_started_fact : SessionOrchestrator → SessionOrchestrator
observe_playback_started_fact = on_turn started_fact_turn

abbrev pub interrupt_policy : InterruptionPolicy → InterruptionPolicy
interrupt_policy policy =
    let normalized = normalize_interruption_policy policy in
    if is_ignore normalized then InterruptionPolicy.hard_interrupt else normalized

-- The result of an interruption that finds nothing to interrupt.
unfoldable pub idle_interruption : InterruptionPolicy → Text → PlaybackInterruption
idle_interruption policy reason = record {
  policy = interrupt_policy policy;
  reason = reason_or_policy reason (interrupt_policy policy);
  heard_text = [];
  heard_text_boundary = HeardTextBoundary.unset;
  played_duration = pos 0;
  planned_duration = pos 0;
  truncated = false;
}

abbrev pub interruption_of : PlaybackInterruption → OrchestratedTurn → PlaybackInterruption
interruption_of r t = record r {
  heard_text = t.heard_text;
  heard_text_boundary = t.heard_text_boundary;
  played_duration = t.played_duration;
  planned_duration = t.planned_duration;
  truncated = t.response_truncated;
}
