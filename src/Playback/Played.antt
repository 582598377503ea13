-- ===== src/Playback/Played.antt =====
-- The played time of a turn: the observations of `SessionOrchestrator` in
-- internal/voice/session_orchestrator.go never take it back.
use agent_server.Prelude.{◌≡◌, Bool, true, false, List, Option, none, some, ◌≤ℤ◌, add64, arith}
use agent_server.Clock.{Duration}
use agent_server.Text.{Text}
use agent_server.Floats.{Floats}
use agent_server.Playback.{
  finalize_text_response, update_playback, updated_turn, observe_playback_chunk, chunk_turn,
  observe_playback_mark_fact, mark_turn, observe_playback_mark_text_fact, mark_text_turn,
  observe_playback_completed_fact, completed_fact_turn, record_interruption_policy, policy_turn,
  interrupt_playback_with_policy, interrupt_at, complete_playback_with_source, persist_locked,
  close_turn,
}
use agent_server.Playback.State.{
  PlaybackOutcome, MemoryRecord, observe_playback_started_fact, started_fact_turn, heard_whole,
}
use agent_server.Playback.Policy.{InterruptionPolicy, HeardTextSource}
use agent_server.Playback.Heard.{max_duration}
use agent_server.Playback.Turn.{
  OrchestratedTurn, update_heard_text_locked, update_heard_text_exact_locked, refresh_heard_text,
  record_interruption_policy_locked, capture_soft_recovery_snapshot_locked,
}
use agent_server.Playback.Run.{
  PlaybackOp, prepare_op, start_op, update_op, chunk_op, mark_op, mark_text_op, completed_op,
  policy_op, playback_step,
}

update-played :
    (F : Floats) (played : Duration) (source : HeardTextSource) (t : OrchestratedTurn)
    → t.played_duration ≤ℤ (update_heard_text_locked F played source t).played_duration
unfolding update_heard_text_locked
update-played F played source t = ground arith

update_exact-played :
    (F : Floats) (played : Duration) (heard : Text) (source : HeardTextSource)
    (t : OrchestratedTurn)
    → t.played_duration ≤ℤ (update_heard_text_exact_locked F played heard source t).played_duration
unfolding update_heard_text_exact_locked update_heard_text_locked
update_exact-played F played heard source t = ground arith

refresh-played :
    (F : Floats) (t : OrchestratedTurn)
    → t.played_duration ≤ℤ (refresh_heard_text F t).played_duration
unfolding refresh_heard_text
refresh-played F t = ground (arith, update-played F t.played_duration t.heard_source t)

updated-played :
    (F : Floats) (delivered : Text) (planned : Duration) (t : OrchestratedTurn)
    → t.played_duration ≤ℤ (updated_turn F delivered planned t).played_duration
unfolding updated_turn update_heard_text_locked
updated-played F delivered planned t = ground arith

policy-played :
    (F : Floats) (policy : InterruptionPolicy) (reason : Text) (t : OrchestratedTurn)
    → t.played_duration ≤ℤ (policy_turn F policy reason t).played_duration
unfolding policy_turn capture_soft_recovery_snapshot_locked record_interruption_policy_locked
    refresh_heard_text update_heard_text_locked
policy-played F policy reason t = ground arith

-- The calls that begin a turn or its playback.
abbrev pub begins_playback : PlaybackOp → Bool
begins_playback (prepare_op request input response) = true
begins_playback (start_op delivered chunk planned prefer) = true
begins_playback _ = false

abbrev pub PlayedSince : Duration → Option OrchestratedTurn → Type 0
PlayedSince played none = true ≡ true
PlayedSince played (some t) = played ≤ℤ t.played_duration

-- A call on a turn, other than one that begins a turn or a playback, ends the turn or leaves it with
-- at least as much played as before, whatever the durations in the call.
pub played_mono :
    (F : Floats) (op : PlaybackOp) (t : OrchestratedTurn) (last : Option PlaybackOutcome)
    (saved : List MemoryRecord)
    → begins_playback op ≡ false
    → PlayedSince t.played_duration
        (playback_step F op
          (record { turn = some t; last_playback_outcome = last; saved = saved })).turn
unfolding playback_step finalize_text_response update_playback observe_playback_chunk chunk_turn
    observe_playback_started_fact started_fact_turn observe_playback_mark_fact mark_turn
    observe_playback_mark_text_fact mark_text_turn observe_playback_completed_fact
    completed_fact_turn heard_whole record_interruption_policy interrupt_playback_with_policy
    interrupt_at complete_playback_with_source persist_locked close_turn
played_mono F (update_op delivered planned) t last saved h = updated-played F delivered planned t
played_mono F chunk_op t last saved h = ground (
  arith,
  update-played F (add64 t.played_duration t.chunk_duration) HeardTextSource.heuristic_bytes t,
)
played_mono F (mark_op played) t last saved h =
    ground (arith, update-played F played HeardTextSource.segment_mark t)
played_mono F (mark_text_op played heard) t last saved h =
    ground (arith, update_exact-played F played heard HeardTextSource.segment_mark t)
played_mono F completed_op t last saved h =
    update-played F (max_duration t.planned_duration t.played_duration)
      HeardTextSource.playback_completed t
played_mono F (policy_op policy reason) t last saved h = policy-played F policy reason t
played_mono F op t last saved h = ground arith
