-- ===== src/Agent/FollowUpTests.antt =====
-- Questions about the reply before.
use agent_server.Prelude.{◌≡◌, true, false, [], pos}
use agent_server.Text.{codes}
use agent_server.Playback.State.{PlaybackOutcome}
use agent_server.Playback.Policy.{
  HeardTextSource, HeardTextConfidence, HeardTextPrecisionTier, HeardTextBoundary,
  InterruptionPolicy,
}
use agent_server.Playback.Context.{playback_outcome_context_metadata}
use agent_server.Agent.FollowUp.{parse_previous_playback_context}
use agent_server.Agent.Continued.{context_of_outcome, parse-playback_outcome}

abbrev stopped : PlaybackOutcome
stopped = record {
  turn_id = codes "t1";
  delivered_text = codes "今天晴，明天有雨。";
  heard_text = codes "今天晴，";
  missed_text = codes " 明天有雨。";
  resume_anchor = codes "今天晴，";
  heard_text_boundary = HeardTextBoundary.prefix;
  heard_source = HeardTextSource.segment_mark;
  heard_confidence = HeardTextConfidence.high;
  heard_precision_tier = HeardTextPrecisionTier.tier1;
  heard_ratio_percent = pos 44;
  playback_completed = false;
  response_interrupted = true;
  response_truncated = true;
  interruption_policy = InterruptionPolicy.hard_interrupt;
  interruption_reason = [];
  played_duration = pos 0;
  planned_duration = pos 0;
}

parse-playback_outcome_example :
    parse_previous_playback_context (playback_outcome_context_metadata stopped)
    ≡ context_of_outcome stopped
parse-playback_outcome_example = parse-playback_outcome stopped
