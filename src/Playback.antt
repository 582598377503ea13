-- ===== src/Playback.antt =====
-- The playback of a turn: the turn's life in `SessionOrchestrator` of
-- internal/voice/session_orchestrator.go, from `PrepareTurn` to its outcome. The mutex makes each
-- method one atomic step. The memory store is external: what is handed to `SaveTurn` is listed in
-- `saved`, the newest first, and its error is dropped as in the source.
pub mod State
pub mod Policy
pub mod Heard
pub mod Turn
pub mod Annotations
pub mod Prefix
pub mod Outcome
pub mod Run
pub mod Sound
pub mod Truthful
pub mod Boundary
pub mod TalkedOver
pub mod Recovery
pub mod Interrupt
pub mod Context
pub mod Played
mod Tests
use agent_server.Prelude.{
  ℕ, Bool, true, false, not, ◌&&◌, ◌||◌, List, [], ◌∷◌, is_empty, if◌then◌else◌, Option, none, some,
  ℤ, pos, leb_ℤ, add64,
}
use agent_server.Clock.{Duration}
use agent_server.Text.{Text, text_eq, codes, trim_space}
use agent_server.Floats.{Floats}
use Policy.{
  InterruptionPolicy, HeardTextSource, HeardTextConfidence, HeardTextPrecisionTier,
  HeardTextBoundary, policy_text, normalize_interruption_policy, normalize_heard_text_source,
  heard_text_confidence_for_source, heard_text_precision_tier_for_source, is_segment_mark,
  is_playback_completed, is_ignore, is_prefix_boundary, is_soft,
}
use Heard.{
  heard_ratio_percent, heard_text_boundary_for_texts, resume_anchor_for_texts,
  missed_text_for_texts, max_duration,
}
use Turn.{
  TurnRequest, OrchestratedTurn, Metadata, record_interruption_policy_locked, reason_or_policy,
  update_heard_text_locked, update_heard_text_exact_locked, refresh_heard_text,
  capture_soft_recovery_snapshot_locked, current_playback_boundary_snapshot_locked,
  apply_soft_recovery_outcome_locked,
}
use Annotations.{enrich_playback_metadata}
use State.{
  PlaybackOutcome, PlaybackInterruption, MemoryRecord, SessionOrchestrator,
  new_session_orchestrator, fresh_turn, trimmed_or, started_turn, on_turn, heard_whole,
  finalized_turn, start_playback_with_options, started_fact_turn, observe_playback_started_fact,
  interrupt_policy, idle_interruption, interruption_of,
}

module _ (F : Floats) where
  unfoldable pub memory_record : OrchestratedTurn → MemoryRecord
  memory_record t = record {
    turn_id = t.request.turn_id;
    user_text = t.input_text;
    response_text = t.response_text;
    delivered_text = t.delivered_text;
    heard_text = t.heard_text;
    response_interrupted = t.response_interrupted;
    response_truncated = t.response_truncated;
    playback_completed = t.playback_completed;
    metadata = enrich_playback_metadata F t.metadata t;
  }

  -- `persistLocked`, with the turn that it is called on.
  unfoldable pub persist_locked : OrchestratedTurn → SessionOrchestrator → SessionOrchestrator
  persist_locked t o = record o { turn = some t; saved = memory_record t ∷ o.saved }

  unfoldable pub playback_outcome_from_turn : OrchestratedTurn → PlaybackOutcome
  playback_outcome_from_turn t = record {
    turn_id = trim_space t.request.turn_id;
    delivered_text = trim_space t.delivered_text;
    heard_text = trim_space t.heard_text;
    missed_text = missed_text_for_texts t.delivered_text t.heard_text;
    resume_anchor = resume_anchor_for_texts t.delivered_text t.heard_text;
    heard_text_boundary = heard_text_boundary_for_texts t.delivered_text t.heard_text;
    heard_source = normalize_heard_text_source t.heard_source HeardTextSource.unknown;
    heard_confidence = heard_text_confidence_for_source t.heard_source;
    heard_precision_tier = heard_text_precision_tier_for_source t.heard_source;
    heard_ratio_percent = heard_ratio_percent F t.delivered_text t.heard_text;
    playback_completed = t.playback_completed;
    response_interrupted = t.response_interrupted;
    response_truncated = t.response_truncated;
    interruption_policy = normalize_interruption_policy t.interruption_policy;
    interruption_reason = trim_space t.interruption_reason;
    played_duration = t.played_duration;
    planned_duration = t.planned_duration;
  }

  -- `persistLocked`, `captureLastPlaybackOutcomeLocked` and `o.turn = nil`: how a turn ends.
  unfoldable pub close_turn : OrchestratedTurn → SessionOrchestrator → SessionOrchestrator
  close_turn t o = record {
    turn = none;
    last_playback_outcome = some (playback_outcome_from_turn t);
    saved = memory_record t ∷ o.saved;
  }

  unfoldable pub prepare_at :
      Option OrchestratedTurn
      → TurnRequest
      → Text
      → Text
      → SessionOrchestrator
      → SessionOrchestrator
  prepare_at none request input_text response_text o =
      persist_locked (fresh_turn request input_text response_text) o
  prepare_at (some t) request input_text response_text o =
      if text_eq t.request.turn_id request.turn_id
      then persist_locked
          (record t {
            request = request;
            metadata = request.metadata;
            input_text = trimmed_or input_text t.input_text;
            response_text = trimmed_or response_text t.response_text;
          })
          o
      else persist_locked (fresh_turn request input_text response_text) o

  unfoldable pub prepare_turn :
      TurnRequest → Text → Text → SessionOrchestrator → SessionOrchestrator
  unfolding prepare_at
  prepare_turn request input_text response_text o =
      prepare_at o.turn request input_text response_text o

  unfoldable pub finalize_text_response : Text → SessionOrchestrator → SessionOrchestrator
  finalize_text_response delivered_text o = elim o.turn [
    | none ↦ o
    | some t ↦ close_turn (finalized_turn delivered_text t) o
  ]

  unfoldable pub updated_turn : Text → Duration → OrchestratedTurn → OrchestratedTurn
  updated_turn delivered_text planned_duration t =
      let u = record t {
        delivered_text = trimmed_or delivered_text t.delivered_text;
        planned_duration =
            if leb_ℤ planned_duration (pos 0) then t.planned_duration else planned_duration;
      } in
      if t.playback_active then update_heard_text_locked F u.played_duration u.heard_source u else u

  unfoldable pub update_playback : Text → Duration → SessionOrchestrator → SessionOrchestrator
  update_playback delivered_text planned_duration o = elim o.turn [
    | none ↦ o
    | some t ↦ persist_locked (updated_turn delivered_text planned_duration t) o
  ]

  unfoldable pub chunk_turn : OrchestratedTurn → OrchestratedTurn
  chunk_turn t =
      if not t.playback_active || t.prefer_client_facts
      then t
      else update_heard_text_locked F (add64 t.played_duration t.chunk_duration)
          HeardTextSource.heuristic_bytes t

  unfoldable pub observe_playback_chunk : SessionOrchestrator → SessionOrchestrator
  observe_playback_chunk = on_turn chunk_turn

  unfoldable pub mark_turn : Duration → OrchestratedTurn → OrchestratedTurn
  mark_turn played_duration t =
      if not t.playback_active
      then t
      else update_heard_text_locked F played_duration HeardTextSource.segment_mark t

  unfoldable pub observe_playback_mark_fact : Duration → SessionOrchestrator → SessionOrchestrator
  observe_playback_mark_fact played_duration = on_turn (mark_turn played_duration)

  unfoldable pub mark_text_turn : Duration → Text → OrchestratedTurn → OrchestratedTurn
  mark_text_turn played_duration heard_text t =
      if not t.playback_active
      then t
      else update_heard_text_exact_locked F played_duration heard_text HeardTextSource.segment_mark
          t

  unfoldable pub observe_playback_mark_text_fact :
      Duration → Text → SessionOrchestrator → SessionOrchestrator
  observe_playback_mark_text_fact played_duration heard_text =
      on_turn (mark_text_turn played_duration heard_text)

  unfoldable pub completed_fact_turn : OrchestratedTurn → OrchestratedTurn
  completed_fact_turn t = heard_whole (
      update_heard_text_locked F (max_duration t.planned_duration t.played_duration)
        HeardTextSource.playback_completed t)

  unfoldable pub observe_playback_completed_fact : SessionOrchestrator → SessionOrchestrator
  observe_playback_completed_fact = on_turn completed_fact_turn

  unfoldable pub policy_turn : InterruptionPolicy → Text → OrchestratedTurn → OrchestratedTurn
  policy_turn policy reason t =
      let normalized = normalize_interruption_policy policy in
      let u = record_interruption_policy_locked policy reason t in
      if is_soft normalized
      then capture_soft_recovery_snapshot_locked F normalized (trim_space reason) u
      else u

  unfoldable pub record_interruption_policy :
      InterruptionPolicy → Text → SessionOrchestrator → SessionOrchestrator
  record_interruption_policy policy reason = on_turn (policy_turn policy reason)

  unfoldable pub interrupted_turn : InterruptionPolicy → Text → OrchestratedTurn → OrchestratedTurn
  interrupted_turn policy reason t =
      let u = refresh_heard_text F (
        record_interruption_policy_locked (interrupt_policy policy)
          (reason_or_policy reason (interrupt_policy policy)) t) in
      record u {
        playback_active = false;
        playback_completed = false;
        response_interrupted = true;
        response_truncated = is_prefix_boundary u.heard_text_boundary;
      }

  unfoldable pub interrupt_at :
      Option OrchestratedTurn
      → InterruptionPolicy
      → Text
      → SessionOrchestrator
      → SessionOrchestrator × PlaybackInterruption
  interrupt_at none policy reason o = (o, idle_interruption policy reason)
  interrupt_at (some t) policy reason o =
      let u = interrupted_turn policy reason t in
      if not t.playback_active
      then (o, idle_interruption policy reason)
      else (close_turn u o, interruption_of (idle_interruption policy reason) u)

  unfoldable pub interrupt_playback_with_policy :
      InterruptionPolicy → Text → SessionOrchestrator → SessionOrchestrator × PlaybackInterruption
  unfolding interrupt_at
  interrupt_playback_with_policy policy reason o = interrupt_at o.turn policy reason o

  unfoldable pub completed_turn : HeardTextSource → OrchestratedTurn → OrchestratedTurn
  completed_turn source t =
      let pre_completion = current_playback_boundary_snapshot_locked t in
      let played =
        if is_playback_completed (normalize_heard_text_source source HeardTextSource.unknown)
        then max_duration t.planned_duration t.played_duration
        else t.played_duration in
      let whole = heard_whole (
        update_heard_text_locked F played source
          (record t { playback_active = false; playback_completed = true })) in
      record (apply_soft_recovery_outcome_locked F pre_completion whole) {
        response_interrupted = false;
        response_truncated = false;
      }

  unfoldable pub complete_playback_with_source :
      HeardTextSource → SessionOrchestrator → SessionOrchestrator
  complete_playback_with_source source o = elim o.turn [
    | none ↦ o
    | some t ↦ close_turn (completed_turn source t) o
  ]
