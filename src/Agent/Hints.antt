-- ===== src/Agent/Hints.antt =====
-- What the model is told when the user asks about the reply before: playbackFollowUpMessages of
-- internal/agent/playback_followup.go.
use agent_server.Prelude.{
  Bool, true, false, not, ◌&&◌, ◌||◌, List, [], ◌∷◌, ◌++◌, if◌then◌else◌, is_empty,
}
use agent_server.Text.{Text, codes}
use agent_server.Playback.Turn.{Metadata}
use agent_server.Agent.Chat.{ChatMessage}
use agent_server.Agent.FollowUp.{
  PreviousPlaybackContext, PlaybackFollowUpIntent, no_intent, continue_intent, recall_boundary,
  recap_tail, parse_previous_playback_context, soft_recovery_context,
  detect_playback_follow_up_intent,
}

-- strings.Join(lines, "\n")
unfoldable pub join_lines : List Text → Text
join_lines [] = []
join_lines (line ∷ []) = line
join_lines (line ∷ next ∷ lines) = line ++ 10 ∷ join_lines (next ∷ lines)

abbrev pub intent_lines : PlaybackFollowUpIntent → List Text
intent_lines no_intent = []
intent_lines continue_intent =
    codes "- The user is asking to continue the previous spoken reply instead of starting over."
    ∷ codes "- Treat the unheard tail as the canonical continuation whenever it is available."
    ∷ codes
        "- Continue naturally from the unheard tail or resume anchor instead of restarting or fully re-summarizing the previous answer."
    ∷ []
intent_lines recall_boundary =
    codes "- The user is asking what part of the previous spoken reply was actually reached."
    ∷ codes
        "- Answer from the heard boundary first, then mention any unheard tail only if it helps the user resume."
    ∷ []
intent_lines recap_tail =
    codes "- The user is asking to repeat or clarify the previous unfinished spoken reply."
    ∷ codes
        "- Prefer a concise recap of the unheard tail; avoid restarting the whole previous reply unless needed."
    ∷ []

abbrev pub lines_if : Bool → List Text → List Text
lines_if test lines = if test then lines else []

abbrev pub is_continue : PlaybackFollowUpIntent → Bool
is_continue continue_intent = true
is_continue _ = false

unfoldable pub context_lines : PlaybackFollowUpIntent → PreviousPlaybackContext → List Text
context_lines intent c =
    lines_if (not (is_empty c.heard_text)) (
      (codes "- Heard boundary: " ++ c.heard_text)
      ∷ codes "- Avoid repeating the heard boundary unless a tiny bridge is needed for coherence."
      ∷ [])
    ++ lines_if (not (is_empty c.missed_text)) ((codes "- Unheard tail: " ++ c.missed_text) ∷ [])
    ++ lines_if (not (is_empty c.resume_anchor))
        ((codes "- Resume anchor: " ++ c.resume_anchor) ∷ [])
    ++ lines_if (is_continue intent && not (is_empty c.missed_text))
        ((codes "- Canonical continuation text: " ++ c.missed_text) ∷ [])
    ++ lines_if (c.response_interrupted || c.response_truncated)
        (codes "- The previous spoken reply was interrupted before full playback completion." ∷ [])
    ++ lines_if (soft_recovery_context c) (
        codes
          "- The previous spoken reply reached playback completion, but the user likely talked over the remaining tail."
        ∷ codes
            "- Treat the unheard tail as recoverable spoken context even though the transport completed naturally."
        ∷ [])

abbrev pub hint_of : PlaybackFollowUpIntent → PreviousPlaybackContext → List ChatMessage
hint_of no_intent c = []
hint_of intent c =
    record {
      role = codes "system";
      content =
          join_lines
            (codes "Runtime voice follow-up hint:" ∷ intent_lines intent ++ context_lines intent c);
      tool_call_id = [];
      tool_calls = [];
    }
    ∷ []

unfoldable pub playback_follow_up_messages : Text → Metadata → List ChatMessage
playback_follow_up_messages user_text m =
    let c = parse_previous_playback_context m in
    hint_of (detect_playback_follow_up_intent user_text c) c
