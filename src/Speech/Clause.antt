-- ===== src/Speech/Clause.antt =====
-- What a clause is: its kind of boundary, its hint for the voice, and how long it lasts, of
-- internal/voice/speech_planner.go.
use agent_server.Prelude.{
  ℕ, Bool, true, false, not, ◌&&◌, ◌||◌, List, [], ◌∷◌, if◌then◌else◌, ltb, ltb_ℤ, length, is_empty,
  any, pos, add64, mul64,
}
use agent_server.Clock.{Duration, millisecond}
use agent_server.Text.{Text, codes, has_prefix, in_set, trim_space}
use agent_server.Lexicon.{rune_at_end}
use agent_server.Speech.Boundary.{
  SpeechPlannerConfig, is_strong_speech_boundary, is_soft_speech_boundary,
  next_planned_speech_segment,
}

-- `unset` is the empty string of a zero clause.
pub data SpeechClauseBoundaryKind : Type 0 where
  unset strong_stop soft_continue forced_breath final_flush : SpeechClauseBoundaryKind

pub data SpeechClauseProsodyHint : Type 0 where
  unhinted neutral continuation_hold final_fall ack_lead : SpeechClauseProsodyHint

-- The index counts the clauses of one reply from 0. Each takes a rune of the reply at least, so
-- that it stays far below 2 ^ 63.
pub record PlannedSpeechClause : Type 0 where
  pub index : ℕ
  pub text : Text
  pub boundary_kind : SpeechClauseBoundaryKind
  pub prosody_hint : SpeechClauseProsodyHint
  pub can_start_before_finalized : Bool
  pub estimated_duration : Duration

-- PlaybackSegment of contracts.go
pub record PlaybackSegment : Type 0 where
  pub index : ℕ
  pub text : Text
  pub expected_duration : Duration
  pub is_last_segment : Bool

abbrev zero_clause : PlannedSpeechClause
zero_clause = record {
  index = 0;
  text = [];
  boundary_kind = unset;
  prosody_hint = unhinted;
  can_start_before_finalized = false;
  estimated_duration = pos 0;
}

-- The pause that a rune adds.
unfoldable pub rune_pause : ℕ → Duration → Duration
unfolding in_set add64 mul64
rune_pause r duration =
    if in_set (codes "，,、") r
    then add64 duration (mul64 (pos 120) millisecond)
    else if in_set (codes "。.！!？?;；:：") r
    then add64 duration (mul64 (pos 220) millisecond)
    else duration

unfoldable pub add_pauses : Text → Duration → Duration
unfolding rune_pause
add_pauses [] duration = duration
add_pauses (r ∷ runes) duration = add_pauses runes (rune_pause r duration)

unfoldable pub estimate_planned_speech_duration : Text → Duration
estimate_planned_speech_duration text =
    let runes = trim_space text in
    if is_empty runes
    then pos 0
    else add_pauses runes (mul64 (mul64 (pos (length runes)) (pos 110)) millisecond)

unfoldable pub estimate_clause_playback_duration : PlannedSpeechClause → Duration
estimate_clause_playback_duration c =
    if ltb_ℤ (pos 0) c.estimated_duration
    then c.estimated_duration
    else estimate_planned_speech_duration c.text

abbrev pub is_final_flush : SpeechClauseBoundaryKind → Bool
is_final_flush final_flush = true
is_final_flush _ = false

abbrev pub is_soft_continue : SpeechClauseBoundaryKind → Bool
is_soft_continue soft_continue = true
is_soft_continue _ = false

unfoldable pub playback_segment_for_clause : PlannedSpeechClause → PlaybackSegment
playback_segment_for_clause c = record {
  index = c.index;
  text = trim_space c.text;
  expected_duration = estimate_clause_playback_duration c;
  is_last_segment = is_final_flush c.boundary_kind;
}

unfoldable pub classify_speech_clause_boundary : Text → Text → Bool → SpeechClauseBoundaryKind
classify_speech_clause_boundary segment rest flush =
    let last = rune_at_end (trim_space segment) in
    if is_empty (trim_space segment)
    then final_flush
    else if flush && is_empty (trim_space rest)
    then final_flush
    else if is_strong_speech_boundary last
    then strong_stop
    else if is_soft_speech_boundary last
    then soft_continue
    else if not (is_empty (trim_space rest))
    then forced_breath
    else final_flush

abbrev pub speech_planner_ack_lead_tokens : List Text
speech_planner_ack_lead_tokens =
    codes "好，"
    ∷ codes "好的，"
    ∷ codes "当然可以，"
    ∷ codes "没问题，"
    ∷ codes "可以，"
    ∷ codes "收到，"
    ∷ codes "明白，"
    ∷ []

unfoldable pub looks_like_ack_lead_clause : Text → SpeechClauseBoundaryKind → Bool
looks_like_ack_lead_clause text boundary =
    let trimmed = trim_space text in
    if is_empty trimmed || not (is_soft_continue boundary)
    then false
    else if ltb 8 (length trimmed)
    then false
    else any (has_prefix trimmed) speech_planner_ack_lead_tokens

abbrev prosody_of : SpeechClauseBoundaryKind → SpeechClauseProsodyHint
prosody_of unset = neutral
prosody_of strong_stop = final_fall
prosody_of soft_continue = continuation_hold
prosody_of forced_breath = continuation_hold
prosody_of final_flush = final_fall

unfoldable pub classify_planned_speech_clause :
    Text → SpeechClauseBoundaryKind → Bool → PlannedSpeechClause
classify_planned_speech_clause text boundary can_start =
    let trimmed = trim_space text in
    record {
      index = 0;
      text = trimmed;
      boundary_kind = boundary;
      prosody_hint =
          if looks_like_ack_lead_clause trimmed boundary then ack_lead else prosody_of boundary;
      can_start_before_finalized = can_start;
      estimated_duration = estimate_planned_speech_duration trimmed;
    }

-- What the segment and the rest of a text become: a blank segment is no clause.
unfoldable pub clause_of_segment : Bool → Bool → ℕ → Text × Text → PlannedSpeechClause × Text
clause_of_segment flush can_start clause_index (segment, rest) =
    if is_empty (trim_space segment) then (zero_clause, rest) else (
      record (classify_planned_speech_clause segment
          (classify_speech_clause_boundary segment rest flush) can_start) { index = clause_index },
      rest,
    )

-- The clause and what is left of the text behind it.
unfoldable pub next_planned_speech_clause :
    SpeechPlannerConfig → Bool → Bool → ℕ → Text → PlannedSpeechClause × Text
next_planned_speech_clause cfg flush can_start clause_index text =
    clause_of_segment flush can_start clause_index (next_planned_speech_segment cfg flush text)
