-- ===== src/Playback/Run.antt =====
-- The calls that a turn's playback is driven by, as data, and runs of them: the methods of
-- `SessionOrchestrator` in internal/voice/session_orchestrator.go in any order.
use agent_server.Prelude.{List, [], ◌∷◌, Bool}
use agent_server.Clock.{Duration}
use agent_server.Text.{Text}
use agent_server.Floats.{Floats}
use agent_server.Playback.{
  prepare_turn, finalize_text_response, update_playback, observe_playback_chunk,
  observe_playback_mark_fact, observe_playback_mark_text_fact, observe_playback_completed_fact,
  record_interruption_policy, interrupt_playback_with_policy, complete_playback_with_source,
}
use agent_server.Playback.State.{
  SessionOrchestrator, start_playback_with_options, observe_playback_started_fact,
}
use agent_server.Playback.Policy.{InterruptionPolicy, HeardTextSource}
use agent_server.Playback.Turn.{TurnRequest}

pub data PlaybackOp : Type 0 where
  prepare_op : TurnRequest → Text → Text → PlaybackOp
  finalize_op : Text → PlaybackOp
  start_op : Text → Duration → Duration → Bool → PlaybackOp
  update_op : Text → Duration → PlaybackOp
  chunk_op : PlaybackOp
  started_op : PlaybackOp
  mark_op : Duration → PlaybackOp
  mark_text_op : Duration → Text → PlaybackOp
  completed_op : PlaybackOp
  policy_op : InterruptionPolicy → Text → PlaybackOp
  interrupt_op : InterruptionPolicy → Text → PlaybackOp
  complete_op : HeardTextSource → PlaybackOp

module _ (F : Floats) where
  unfoldable pub playback_step : PlaybackOp → SessionOrchestrator → SessionOrchestrator
  playback_step (prepare_op request input response) o = prepare_turn F request input response o
  playback_step (finalize_op delivered) o = finalize_text_response F delivered o
  playback_step (start_op delivered chunk planned prefer) o =
      start_playback_with_options delivered chunk planned prefer o
  playback_step (update_op delivered planned) o = update_playback F delivered planned o
  playback_step chunk_op o = observe_playback_chunk F o
  playback_step started_op o = observe_playback_started_fact o
  playback_step (mark_op played) o = observe_playback_mark_fact F played o
  playback_step (mark_text_op played heard) o = observe_playback_mark_text_fact F played heard o
  playback_step completed_op o = observe_playback_completed_fact F o
  playback_step (policy_op policy reason) o = record_interruption_policy F policy reason o
  playback_step (interrupt_op policy reason) o =
      (interrupt_playback_with_policy F policy reason o).0
  playback_step (complete_op source) o = complete_playback_with_source F source o

  unfoldable pub playback_run : List PlaybackOp → SessionOrchestrator → SessionOrchestrator
  playback_run [] o = o
  playback_run (op ∷ ops) o = playback_run ops (playback_step op o)
