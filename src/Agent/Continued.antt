-- ===== src/Agent/Continued.antt =====
-- What the agent reads out of the metadata that the voice runtime writes of the last playback:
-- internal/agent/playback_followup.go against playbackOutcomeContextMetadata of
-- internal/voice/session_orchestrator.go.
use agent_server.Prelude.{
  ◌≡◌, refl, sym, Bool, true, false, Bool-cases, inl, inr, [], ◌∷◌, if◌then◌else◌, is_empty, some,
  arith,
}
use agent_server.Text.{Text, codes, text_eq, trim_space, to_lower}
use agent_server.Text.Trim.{trim_space-IsTrimmed}
use agent_server.Playback.Turn.{Metadata}
use agent_server.Playback.State.{PlaybackOutcome}
use agent_server.Playback.Policy.{policy_text}
use agent_server.Playback.Annotations.{assign, put_trimmed, bool_text, lookup, lookup-assign}
use agent_server.Playback.Context.{playback_outcome_context_metadata, texts_of_outcome}
use agent_server.Agent.FollowUp.{
  follow_up_text, detect_deterministic_playback_follow_up_intent, is_playback_continue_intent,
  normalize_playback_follow_up_text, deterministic_playback_follow_up_text, metadata_at,
  PreviousPlaybackContext, parse_previous_playback_context,
}

at-assign :
    (k j v : Text) (m : Metadata)
    → metadata_at j (assign k v m) ≡ (if text_eq k j then v else metadata_at j m)
unfolding metadata_at
at-assign k j v m = rw (lookup-assign k j v m) (ground arith)

at-put_trimmed :
    (k j v : Text) (m : Metadata)
    → metadata_at j (put_trimmed k v m) ≡ (
        if text_eq k j
        then if is_empty (trim_space v) then metadata_at j m else trim_space v
        else metadata_at j m)
unfolding put_trimmed
at-put_trimmed k j v m = ground (arith, at-assign k j (trim_space v) m)

at-if :
    (j : Text) (b : Bool) (m n : Metadata)
    → metadata_at j (if b then m else n) ≡ (if b then metadata_at j m else metadata_at j n)
at-if j true m n = refl
at-if j false m n = refl

at-nil : (j : Text) → metadata_at j [] ≡ []
unfolding metadata_at lookup
at-nil j = refl

if-same {ℓ} : {A : Type ℓ} (b : Bool) (a : A) → (if b then a else a) ≡ a
if-same true a = refl
if-same false a = refl

or_nil : (t : Text) → (if is_empty t then [] else t) ≡ t
or_nil [] = refl
or_nil (c ∷ t) = refl

ruleset written = (at-put_trimmed, at-assign, at-if, at-nil, if-same, or_nil)

trim_again : (t : Text) → trim_space (trim_space t) ≡ trim_space t
trim_again t = trim_space-IsTrimmed t

flag_of_bool_text : (b : Bool) → text_eq (to_lower (trim_space (bool_text b))) (codes "true") ≡ b
unfolding text_eq to_lower trim_space bool_text
flag_of_bool_text true = refl
flag_of_bool_text false = refl

-- What the agent is to know of an outcome.
abbrev pub context_of_outcome : PlaybackOutcome → PreviousPlaybackContext
context_of_outcome o = record {
  available = true;
  heard_text = trim_space o.heard_text;
  missed_text = trim_space o.missed_text;
  resume_anchor = trim_space o.resume_anchor;
  interruption_policy = trim_space (policy_text o.interruption_policy);
  playback_completed = o.playback_completed;
  response_interrupted = o.response_interrupted;
  response_truncated = o.response_truncated;
}

texts_kept :
    (o : PlaybackOutcome)
    → let m = playback_outcome_context_metadata o in
      (metadata_at (codes "voice.previous.heard_text") m ≡ trim_space o.heard_text)
      × (metadata_at (codes "voice.previous.missed_text") m ≡ trim_space o.missed_text)
      × (metadata_at (codes "voice.previous.resume_anchor") m ≡ trim_space o.resume_anchor)
      × (metadata_at (codes "voice.previous.interruption_policy") m
          ≡ trim_space (policy_text o.interruption_policy))
unfolding playback_outcome_context_metadata texts_of_outcome text_eq
texts_kept o = (simp written, simp written, simp written, simp written)

flags_kept :
    (o : PlaybackOutcome)
    → let m = playback_outcome_context_metadata o in
      (metadata_at (codes "voice.previous.available") m ≡ bool_text true)
      × (metadata_at (codes "voice.previous.playback_completed") m ≡ bool_text o.playback_completed)
      × (metadata_at (codes "voice.previous.response_interrupted") m
          ≡ bool_text o.response_interrupted)
      × (metadata_at (codes "voice.previous.response_truncated") m ≡ bool_text o.response_truncated)
unfolding playback_outcome_context_metadata texts_of_outcome text_eq bool_text
flags_kept o = (simp written, simp written, simp written, simp written)

-- The agent reads back what the voice runtime writes of the last playback, for every outcome: the heard
-- and the missed text, the anchor and the policy without the blanks around them, and the three flags;
-- and it takes the context for available.
pub parse-playback_outcome :
    (o : PlaybackOutcome)
    → parse_previous_playback_context (playback_outcome_context_metadata o) ≡ context_of_outcome o
unfolding parse_previous_playback_context
parse-playback_outcome o =
    let (heard, missed, anchor, policy) = texts_kept o in
    let (available, completed, interrupted, truncated) = flags_kept o in
    rw (heard, missed, anchor, policy, available, completed, interrupted, truncated)
      (rw
        (
          trim_again o.heard_text,
          trim_again o.missed_text,
          trim_again o.resume_anchor,
          trim_again (policy_text o.interruption_policy),
          flag_of_bool_text true,
          flag_of_bool_text o.playback_completed,
          flag_of_bool_text o.response_interrupted,
          flag_of_bool_text o.response_truncated,
        )
        refl)

continue-nonempty : (t : Text) → is_playback_continue_intent t ≡ true → is_empty t ≡ false
unfolding is_playback_continue_intent text_eq
continue-nonempty [] h = sym h
continue-nonempty (c ∷ t) h = refl

missed-follow_up :
    (t : Text) (c : PreviousPlaybackContext)
    → is_playback_continue_intent (normalize_playback_follow_up_text t) ≡ true
    → c.available ≡ true
    → is_empty c.missed_text ≡ false
    → follow_up_text (detect_deterministic_playback_follow_up_intent t c) c ≡ some c.missed_text
unfolding detect_deterministic_playback_follow_up_intent
missed-follow_up t c asks available missed =
    let named = continue-nonempty (normalize_playback_follow_up_text t) asks in
    elim (Bool-cases (is_empty c.heard_text)) [
      | inl unheard ↦ rw (unheard, available, missed, named, asks, missed) refl
      | inr heard ↦ rw (heard, available, missed, named, asks, missed) refl
    ]

-- When the user asks to go on, in one of the words for it and up to marks and blanks, and the last
-- playback left a text unheard that is not blank, the answer is exactly that text, without the blanks
-- around it.
pub follow_up-continues :
    (t : Text) (o : PlaybackOutcome)
    → is_playback_continue_intent (normalize_playback_follow_up_text t) ≡ true
    → is_empty (trim_space o.missed_text) ≡ false
    → deterministic_playback_follow_up_text t (playback_outcome_context_metadata o)
      ≡ some (trim_space o.missed_text)
unfolding deterministic_playback_follow_up_text
follow_up-continues t o asks missed =
    rw (parse-playback_outcome o) (missed-follow_up t (context_of_outcome o) asks refl missed)
