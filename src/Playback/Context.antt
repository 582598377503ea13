-- ===== src/Playback/Context.antt =====
-- What the next turn is told of the last playback: `LastPlaybackContextMetadata` and
-- `playbackOutcomeContextMetadata` of internal/voice/session_orchestrator.go.
use agent_server.Prelude.{
  ◌≡◌, ◌∙◌, refl, false, [], if◌then◌else◌, Option, none, some, pos, leb_ℤ, arith,
}
use agent_server.Text.{Text, codes, text_eq, trim_space, format_int}
use agent_server.Text.Laws.{text_eq_refl}
use agent_server.Playback.State.{PlaybackOutcome, SessionOrchestrator}
use agent_server.Playback.Policy.{policy_text}
use agent_server.Playback.Annotations.{
  lookup, assign, put_trimmed, bool_text, boundary_text, source_text, confidence_text, tier_text,
  lookup-assign,
}
use agent_server.Playback.Turn.{Metadata}

abbrev pub available_key : Text
available_key = codes "voice.previous.available"

abbrev pub completed_key : Text
completed_key = codes "voice.previous.playback_completed"

abbrev pub interrupted_key : Text
interrupted_key = codes "voice.previous.response_interrupted"

abbrev pub truncated_key : Text
truncated_key = codes "voice.previous.response_truncated"

abbrev policy_key : Text
policy_key = codes "voice.previous.interruption_policy"

abbrev reason_key : Text
reason_key = codes "voice.previous.interruption_reason"

-- The entries before the flags, in the source's order.
unfoldable pub texts_of_outcome : PlaybackOutcome → Metadata
texts_of_outcome o =
    let m1 = assign available_key (codes "true") [] in
    let m2 = put_trimmed (codes "voice.previous.turn_id") o.turn_id m1 in
    let m3 = put_trimmed (codes "voice.previous.delivered_text") o.delivered_text m2 in
    let m4 = put_trimmed (codes "voice.previous.heard_text") o.heard_text m3 in
    let m5 = put_trimmed (codes "voice.previous.missed_text") o.missed_text m4 in
    let m6 = put_trimmed (codes "voice.previous.resume_anchor") o.resume_anchor m5 in
    let m7 =
      put_trimmed (codes "voice.previous.heard_boundary") (boundary_text o.heard_text_boundary)
        m6 in
    let m8 = put_trimmed (codes "voice.previous.heard_source") (source_text o.heard_source) m7 in
    let m9 =
      put_trimmed (codes "voice.previous.heard_confidence") (confidence_text o.heard_confidence)
        m8 in
    let m10 =
      put_trimmed (codes "voice.previous.heard_precision_tier") (tier_text o.heard_precision_tier)
        m9 in
    if leb_ℤ (pos 0) o.heard_ratio_percent
    then assign (codes "voice.previous.heard_ratio_pct") (format_int o.heard_ratio_percent) m10
    else m10

unfoldable pub playback_outcome_context_metadata : PlaybackOutcome → Metadata
playback_outcome_context_metadata o =
    let m1 = assign completed_key (bool_text o.playback_completed) (texts_of_outcome o) in
    let m2 = assign interrupted_key (bool_text o.response_interrupted) m1 in
    let m3 = assign truncated_key (bool_text o.response_truncated) m2 in
    let m4 = put_trimmed policy_key (policy_text o.interruption_policy) m3 in
    put_trimmed reason_key o.interruption_reason m4

-- `none` is the nil map.
unfoldable pub last_playback_context_metadata : SessionOrchestrator → Option Metadata
last_playback_context_metadata o = elim o.last_playback_outcome [
  | none ↦ none
  | some p ↦ some (playback_outcome_context_metadata p)
]

lookup-here : (k : Text) (v : Text) (m : Metadata) → lookup k (assign k v m) ≡ some v
lookup-here k v m = ground (arith, lookup-assign k k v m, text_eq_refl k)

lookup-past :
    (k j : Text) (v : Text) (m : Metadata)
    → text_eq k j ≡ false
    → lookup j (assign k v m) ≡ lookup j m
lookup-past k j v m h = ground (arith, lookup-assign k j v m)

lookup-other :
    (k j : Text) (v : Text) (m : Metadata)
    → text_eq k j ≡ false
    → lookup j (put_trimmed k v m) ≡ lookup j m
unfolding put_trimmed
lookup-other k j v m h = ground (arith, lookup-assign k j (trim_space v) m)

-- Behind the flags come the policy and the reason, under keys of their own.
lookup-flags :
    (j : Text) (o : PlaybackOutcome) (m : Metadata)
    → text_eq reason_key j ≡ false
    → text_eq policy_key j ≡ false
    → lookup j (
        put_trimmed reason_key o.interruption_reason
          (put_trimmed policy_key (policy_text o.interruption_policy) m))
      ≡ lookup j m
lookup-flags j o m r p =
    lookup-other reason_key j o.interruption_reason
      (put_trimmed policy_key (policy_text o.interruption_policy) m) r
    ∙ lookup-other policy_key j (policy_text o.interruption_policy) m p

-- Whatever the texts of an outcome, the three flags are found under their keys.
pub playback_outcome_context_metadata_lem :
    (o : PlaybackOutcome)
    → let m = playback_outcome_context_metadata o in
      (lookup completed_key m ≡ some (bool_text o.playback_completed))
      × (lookup interrupted_key m ≡ some (bool_text o.response_interrupted))
      × (lookup truncated_key m ≡ some (bool_text o.response_truncated))
unfolding playback_outcome_context_metadata text_eq
playback_outcome_context_metadata_lem o =
    let m1 = assign completed_key (bool_text o.playback_completed) (texts_of_outcome o) in
    let m2 = assign interrupted_key (bool_text o.response_interrupted) m1 in
    let m3 = assign truncated_key (bool_text o.response_truncated) m2 in
    (
      lookup-flags completed_key o m3 refl refl
          ∙ lookup-past truncated_key completed_key (bool_text o.response_truncated) m2 refl
          ∙ lookup-past interrupted_key completed_key (bool_text o.response_interrupted) m1 refl
          ∙ lookup-here completed_key (bool_text o.playback_completed) (texts_of_outcome o),
      lookup-flags interrupted_key o m3 refl refl
          ∙ lookup-past truncated_key interrupted_key (bool_text o.response_truncated) m2 refl
          ∙ lookup-here interrupted_key (bool_text o.response_interrupted) m1,
      lookup-flags truncated_key o m3 refl refl
          ∙ lookup-here truncated_key (bool_text o.response_truncated) m2,
    )
