-- ===== src/Agent/FollowUp.antt =====
-- What a turn says to a question about the reply before it: internal/agent/playback_followup.go.
use agent_server.Prelude.{
  Bool, not, ◌&&◌, ◌||◌, List, [], ◌∷◌, ◌++◌, if◌then◌else◌, is_empty, any, Option, none, some,
}
use agent_server.Text.{Text, codes, text_eq, trim_space, to_lower, has_prefix, contains, in_set}
use agent_server.Playback.Turn.{Metadata}
use agent_server.Playback.Annotations.{lookup}

abbrev pub or_empty : Option Text → Text
or_empty none = []
or_empty (some text) = text

-- metadata[key]
unfoldable pub metadata_at : Text → Metadata → Text
metadata_at key m = or_empty (lookup key m)

abbrev pub metadata_flag : Metadata → Text → Bool
metadata_flag m key = text_eq (to_lower (trim_space (metadata_at key m))) (codes "true")

pub record PreviousPlaybackContext : Type 0 where
  pub available : Bool
  pub heard_text : Text
  pub missed_text : Text
  pub resume_anchor : Text
  pub interruption_policy : Text
  pub playback_completed : Bool
  pub response_interrupted : Bool
  pub response_truncated : Bool

pub data PlaybackFollowUpIntent : Type 0 where
  no_intent continue_intent recall_boundary recap_tail : PlaybackFollowUpIntent

abbrev pub has_text : PreviousPlaybackContext → Bool
has_text c =
    not (is_empty c.heard_text) || not (is_empty c.missed_text) || not (is_empty c.resume_anchor)

abbrev pub with_available : PreviousPlaybackContext → PreviousPlaybackContext
with_available c = record c { available = c.available || has_text c }

unfoldable pub parse_previous_playback_context : Metadata → PreviousPlaybackContext
parse_previous_playback_context m = with_available (record {
  available = metadata_flag m (codes "voice.previous.available");
  heard_text = trim_space (metadata_at (codes "voice.previous.heard_text") m);
  missed_text = trim_space (metadata_at (codes "voice.previous.missed_text") m);
  resume_anchor = trim_space (metadata_at (codes "voice.previous.resume_anchor") m);
  interruption_policy = trim_space (metadata_at (codes "voice.previous.interruption_policy") m);
  playback_completed = metadata_flag m (codes "voice.previous.playback_completed");
  response_interrupted = metadata_flag m (codes "voice.previous.response_interrupted");
  response_truncated = metadata_flag m (codes "voice.previous.response_truncated");
})

abbrev pub actionable : PreviousPlaybackContext → Bool
actionable c = c.available && has_text c

unfoldable pub soft_recovery_context : PreviousPlaybackContext → Bool
soft_recovery_context c =
    c.playback_completed
    && not c.response_interrupted
    && not (is_empty c.missed_text)
    && (text_eq c.interruption_policy (codes "duck_only")
        || text_eq c.interruption_policy (codes "backchannel"))

-- The replacer: it leaves out the marks, the quotes and the blank.
abbrev pub without_marks : Text → Text
without_marks [] = []
without_marks (c ∷ s) =
    let rest = without_marks s in if in_set (codes "？。！，,.!?“”‘’'\" ") c then rest else c ∷ rest

unfoldable pub normalize_playback_follow_up_text : Text → Text
normalize_playback_follow_up_text text = without_marks (trim_space (to_lower text))

abbrev pub is_one_of : List Text → Text → Bool
is_one_of texts text = any (λ t. text_eq text t) texts

unfoldable pub is_playback_continue_intent : Text → Bool
is_playback_continue_intent = is_one_of (
    codes "继续"
    ∷ codes "继续说"
    ∷ codes "继续讲"
    ∷ codes "接着说"
    ∷ codes "接着讲"
    ∷ codes "接着"
    ∷ codes "后面呢"
    ∷ codes "然后呢"
    ∷ codes "继续吧"
    ∷ codes "goon"
    ∷ codes "continue"
    ∷ codes "keepgoing"
    ∷ [])

unfoldable pub is_playback_boundary_recall_intent : Text → Bool
is_playback_boundary_recall_intent = is_one_of (
    codes "你刚刚说到哪了"
    ∷ codes "你刚刚说到哪"
    ∷ codes "刚刚说到哪了"
    ∷ codes "刚刚说到哪"
    ∷ codes "你刚才说到哪了"
    ∷ codes "你刚才说到哪"
    ∷ codes "刚才说到哪了"
    ∷ codes "刚才说到哪"
    ∷ [])

unfoldable pub is_playback_recap_tail_intent : Text → Bool
is_playback_recap_tail_intent = is_one_of (
    codes "没听清"
    ∷ codes "没听清楚"
    ∷ codes "你刚刚最后一句"
    ∷ codes "你刚刚最后一句是什么"
    ∷ codes "刚刚最后一句"
    ∷ codes "最后一句"
    ∷ codes "你刚才最后一句"
    ∷ codes "你刚才最后一句是什么"
    ∷ codes "再说一遍"
    ∷ codes "再说一次"
    ∷ codes "repeatthat"
    ∷ codes "sayitagain"
    ∷ [])

unfoldable pub is_playback_continue_like_intent : Text → Bool
is_playback_continue_like_intent text =
    is_playback_continue_intent text
    || any (λ prefix. has_prefix text prefix)
        (codes "继续" ∷ codes "接着" ∷ codes "后面" ∷ codes "然后" ∷ [])
    || has_prefix text (codes "continue")
    || has_prefix text (codes "goon")

unfoldable pub is_playback_boundary_recall_like_intent : Text → Bool
is_playback_boundary_recall_like_intent text =
    is_playback_boundary_recall_intent text
    || contains text (codes "说到哪")
    || contains text (codes "讲到哪")

unfoldable pub is_playback_recap_tail_like_intent : Text → Bool
is_playback_recap_tail_like_intent text =
    is_playback_recap_tail_intent text
    || any (λ part. contains text part)
        (codes "没听清" ∷ codes "最后一句" ∷ codes "再说一遍" ∷ codes "再说一次" ∷ codes "再重复" ∷ [])

-- The rules of both tests, on a normalized text that the three questions have been asked of.
abbrev pub intent_by : Bool → Bool → Bool → PreviousPlaybackContext → PlaybackFollowUpIntent
intent_by continues recalls recaps c =
    if continues && not (is_empty c.missed_text)
    then continue_intent
    else if recalls && (not (is_empty c.heard_text) || not (is_empty c.resume_anchor))
    then recall_boundary
    else if recaps && (not (is_empty c.missed_text) || not (is_empty c.heard_text))
    then recap_tail
    else if continues && not (is_empty c.heard_text)
    then recall_boundary
    else no_intent

abbrev pub intent_if_asked :
    (Text → Bool)
    → (Text → Bool)
    → (Text → Bool)
    → Text
    → PreviousPlaybackContext
    → PlaybackFollowUpIntent
intent_if_asked continues recalls recaps user_text c =
    let normalized = normalize_playback_follow_up_text user_text in
    if not (actionable c) || is_empty normalized
    then no_intent
    else intent_by (continues normalized) (recalls normalized) (recaps normalized) c

unfoldable pub detect_deterministic_playback_follow_up_intent :
    Text → PreviousPlaybackContext → PlaybackFollowUpIntent
detect_deterministic_playback_follow_up_intent =
    intent_if_asked is_playback_continue_intent is_playback_boundary_recall_intent
      is_playback_recap_tail_intent

unfoldable pub detect_loose_playback_follow_up_intent :
    Text → PreviousPlaybackContext → PlaybackFollowUpIntent
detect_loose_playback_follow_up_intent =
    intent_if_asked is_playback_continue_like_intent is_playback_boundary_recall_like_intent
      is_playback_recap_tail_like_intent

abbrev pub or_loose : PlaybackFollowUpIntent → PlaybackFollowUpIntent → PlaybackFollowUpIntent
or_loose no_intent loose = loose
or_loose intent loose = intent

unfoldable pub detect_playback_follow_up_intent :
    Text → PreviousPlaybackContext → PlaybackFollowUpIntent
detect_playback_follow_up_intent user_text c =
    or_loose (detect_deterministic_playback_follow_up_intent user_text c)
      (detect_loose_playback_follow_up_intent user_text c)

abbrev pub follow_up_text : PlaybackFollowUpIntent → PreviousPlaybackContext → Option Text
follow_up_text no_intent c = none
follow_up_text continue_intent c = if is_empty c.missed_text then none else some c.missed_text
follow_up_text recall_boundary c =
    let heard = not (is_empty c.heard_text) in
    let missed = not (is_empty c.missed_text) in
    if soft_recovery_context c && heard && missed
    then some (codes "我刚刚大概说到：" ++ c.heard_text ++ codes "。你说话那会儿后面可能没完整听到的是：" ++ c.missed_text)
    else if heard && missed
    then some (codes "我刚刚说到：" ++ c.heard_text ++ codes "。后面还没播完的是：" ++ c.missed_text)
    else if heard
    then some (codes "我刚刚说到：" ++ c.heard_text)
    else if is_empty c.resume_anchor
    then none
    else some (codes "我刚刚说到：" ++ c.resume_anchor)
follow_up_text recap_tail c =
    if soft_recovery_context c && not (is_empty c.missed_text)
    then some (codes "你刚刚可能没完整听到的是：" ++ c.missed_text)
    else if not (is_empty c.missed_text)
    then some (codes "后面那句是：" ++ c.missed_text)
    else if is_empty c.heard_text
    then none
    else some (codes "我刚刚说的是：" ++ c.heard_text)

unfoldable pub deterministic_playback_follow_up_text : Text → Metadata → Option Text
deterministic_playback_follow_up_text user_text m =
    let c = parse_previous_playback_context m in
    follow_up_text (detect_deterministic_playback_follow_up_intent user_text c) c
