-- ===== src/Playback/Tests.antt =====
-- Runs of the playback model, and its theorems at concrete inputs.
use agent_server.Prelude.{◌≡◌, ◌⊎◌, refl, true, List, [], ◌∷◌, none, some, pos}
use agent_server.Text.{Text, codes, trim_space, trim_left, trim_right, text_eq, has_prefix}
use agent_server.Floats.{exact}
use agent_server.Playback.{completed_turn, interrupt_playback_with_policy}
use agent_server.Playback.State.{
  SessionOrchestrator, new_session_orchestrator, fresh_turn, started_turn, heard_whole,
}
use agent_server.Playback.Policy.{
  InterruptionPolicy, HeardTextSource, HeardTextConfidence, HeardTextPrecisionTier,
  HeardTextBoundary, normalize_heard_text_source,
}
use agent_server.Playback.Heard.{
  clamp_count, max_duration, heard_ratio_percent, heard_text_for_playback, missed_text_for_texts,
}
use agent_server.Playback.Turn.{
  TurnRequest, OrchestratedTurn, SoftRecoverySnapshot, preferred_soft_recovery_boundary,
  current_playback_boundary_snapshot_locked, apply_soft_recovery_outcome_locked,
  update_heard_text_locked, should_limit_completed_playback_to_soft_recovery, limit_rule,
  better_soft_recovery_boundary, usable_soft_recovery_boundary,
}
use agent_server.Playback.Prefix.{Begins}
use agent_server.Playback.Run.{
  PlaybackOp, prepare_op, start_op, mark_op, interrupt_op, playback_step, playback_run,
}
use agent_server.Playback.Truthful.{TruthfulOutcome, reachable-IsTruthful}
use agent_server.Playback.Interrupt.{is_playing, Interrupts, interrupt-Agrees}
use agent_server.Playback.Recovery.{completed-heard}
use agent_server.Playback.TalkedOver.{IsTalkedOver, IsHeardOut}
use agent_server.Playback.Boundary.{IsLater}
use agent_server.Playback.Played.{PlayedSince, played_mono}

abbrev request : TurnRequest
request = record { turn_id = codes "turn_1"; metadata = [] }

abbrev answer : Text
answer = codes "the lamp is on now"

-- One second is planned, and the client marks 300 milliseconds.
abbrev playing_ops : List PlaybackOp
playing_ops =
    prepare_op request (codes "lamp on") answer
    ∷ start_op answer (pos 20000000) (pos 1000000000) true
    ∷ mark_op (pos 300000000)
    ∷ []

abbrev hard_ops : List PlaybackOp
hard_ops =
    prepare_op request (codes "lamp on") answer
    ∷ start_op answer (pos 20000000) (pos 1000000000) true
    ∷ mark_op (pos 300000000)
    ∷ interrupt_op InterruptionPolicy.hard_interrupt (codes "user spoke")
    ∷ []

abbrev playing : SessionOrchestrator
playing = playback_run exact playing_ops new_session_orchestrator

abbrev hard : SessionOrchestrator
hard = playback_run exact hard_ops new_session_orchestrator

heard_six : heard_text_for_playback exact answer (pos 300000000) (pos 1000000000) ≡ codes "the la"
unfolding heard_text_for_playback clamp_count trim_space trim_left trim_right
heard_six = refl

missed_rest : missed_text_for_texts answer (codes "the la") ≡ codes "mp is on now"
unfolding missed_text_for_texts trim_space trim_left trim_right text_eq
missed_rest = refl

reachable-IsTruthful_example : TruthfulOutcome hard.last_playback_outcome
reachable-IsTruthful_example = reachable-IsTruthful exact hard_ops

the_la-Begins : Begins (codes "the la") answer
unfolding trim_space trim_left trim_right
the_la-Begins = (codes "mp is on now", refl)

interrupt-Agrees_example :
    Interrupts
      (is_playing playing.turn)
      playing
      (interrupt_playback_with_policy exact (InterruptionPolicy.other (codes "stop")) [] playing)
interrupt-Agrees_example =
    interrupt-Agrees exact (InterruptionPolicy.other (codes "stop")) [] playing

abbrev begun : OrchestratedTurn
begun = started_turn answer (pos 20000000) (pos 1000000000) true (fresh_turn request [] answer)

-- An early point of a backchannel, at 100 milliseconds.
abbrev point : SoftRecoverySnapshot
point = record {
  policy = InterruptionPolicy.backchannel;
  reason = codes "uh huh";
  heard_text = codes "the la";
  heard_text_boundary = HeardTextBoundary.prefix;
  heard_source = HeardTextSource.segment_mark;
  heard_confidence = HeardTextConfidence.medium;
  heard_precision = HeardTextPrecisionTier.tier1;
  played_duration = pos 100000000;
}

abbrev with_point : OrchestratedTurn
with_point = record begun { soft_recovery = some point }

limited :
    (completed_turn exact HeardTextSource.playback_completed with_point).heard_text ≡ codes "the la"
unfolding completed_turn started_turn fresh_turn apply_soft_recovery_outcome_locked
    current_playback_boundary_snapshot_locked heard_whole update_heard_text_locked
    should_limit_completed_playback_to_soft_recovery missed_text_for_texts heard_ratio_percent
    limit_rule preferred_soft_recovery_boundary better_soft_recovery_boundary
    usable_soft_recovery_boundary heard_text_for_playback clamp_count max_duration
    normalize_heard_text_source trim_space trim_left trim_right text_eq has_prefix
limited = refl

completed-heard_example :
    let u = completed_turn exact HeardTextSource.playback_completed with_point in
    (trim_space u.heard_text ≡ trim_space with_point.delivered_text)
      × IsHeardOut exact with_point with_point.soft_recovery
    ⊎ ((s : SoftRecoverySnapshot) × (with_point.soft_recovery ≡ some s)
        × IsTalkedOver exact with_point s
        × IsLater with_point.delivered_text s.heard_text with_point.heard_text u.heard_text)
completed-heard_example = completed-heard exact HeardTextSource.playback_completed with_point

played_mono_example :
    PlayedSince begun.played_duration
      (playback_step exact
        (mark_op (pos 300000000))
        (record { turn = some begun; last_playback_outcome = none; saved = [] })).turn
played_mono_example = played_mono exact (mark_op (pos 300000000)) begun none [] refl
