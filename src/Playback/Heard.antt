-- ===== src/Playback/Heard.antt =====
-- How much of a delivered text was heard: the text functions of
-- internal/voice/session_orchestrator.go.
use agent_server.Prelude.{
  ℕ, Bool, not, ◌&&◌, ◌||◌, [], is_empty, length, take, drop, if◌then◌else◌, leb, ltb, ℤ, pos,
  negsuc, pos_part, leb_ℤ, quot,
}
use agent_server.Clock.{Duration}
use agent_server.Text.{Text, text_eq, has_prefix, trim_space}
use agent_server.Floats.{Floats}
use agent_server.Playback.Policy.{HeardTextBoundary}

-- A rune count brought between 1 and the length of the text.
unfoldable pub clamp_count : ℤ → ℕ → ℕ
clamp_count count len =
    if leb_ℤ count (pos 0)
    then (if ltb len 1 then len else 1)
    else if ltb len (pos_part count)
    then len
    else pos_part count

module _ (F : Floats) where
  unfoldable pub heard_text_for_playback : Text → Duration → Duration → Text
  unfolding quot
  heard_text_for_playback text played_duration planned_duration =
      let trimmed = trim_space text in
      let ratio = F.div (F.of_int played_duration) (F.of_int planned_duration) in
      let share = F.ceil (F.mul (F.of_int (pos (length trimmed))) ratio) in
      if is_empty trimmed || leb_ℤ played_duration (pos 0)
      then []
      else if not (leb_ℤ planned_duration (pos 0))
      then (if F.ge ratio (F.hundredths 100)
          then trimmed
          else take (clamp_count share (length trimmed)) trimmed)
      else take (clamp_count (quot played_duration 120000000) (length trimmed)) trimmed

  -- -1 stands for a text that is blank.
  unfoldable pub heard_ratio_percent : Text → Text → ℤ
  heard_ratio_percent delivered_text heard_text =
      let delivered = trim_space delivered_text in
      let heard = trim_space heard_text in
      if is_empty delivered
      then negsuc 0
      else if is_empty heard
      then pos 0
      else if leb (length delivered) (length heard)
      then pos 100
      else F.round (
          F.div (F.mul (F.of_int (pos (length heard))) (F.of_int (pos 100)))
            (F.of_int (pos (length delivered))))

unfoldable pub has_exact_heard_text_prefix : Text → Text → Bool
has_exact_heard_text_prefix delivered_text heard_text =
    let heard = trim_space heard_text in
    let delivered = trim_space delivered_text in
    not (is_empty heard) && not (is_empty delivered) && has_prefix delivered heard

unfoldable pub heard_text_boundary_for_texts : Text → Text → HeardTextBoundary
heard_text_boundary_for_texts delivered_text heard_text =
    let delivered = trim_space delivered_text in
    let heard = trim_space heard_text in
    if is_empty heard
    then HeardTextBoundary.none_heard
    else if is_empty delivered || text_eq heard delivered
    then HeardTextBoundary.full
    else HeardTextBoundary.prefix

-- `deliveredText` is not read.
unfoldable pub resume_anchor_for_texts : Text → Text → Text
resume_anchor_for_texts delivered_text heard_text = trim_space heard_text

unfoldable pub missed_text_for_texts : Text → Text → Text
missed_text_for_texts delivered_text heard_text =
    let delivered = trim_space delivered_text in
    let heard = trim_space heard_text in
    if is_empty delivered || leb (length delivered) (length heard)
    then []
    else if is_empty heard
    then delivered
    else if not (text_eq (take (length heard) delivered) heard)
    then []
    else trim_space (drop (length heard) delivered)

unfoldable pub max_duration : Duration → Duration → Duration
max_duration a b = if leb_ℤ b a then a else b
