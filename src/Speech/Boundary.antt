-- ===== src/Speech/Boundary.antt =====
-- Where a clause ends: the settings and plannedSpeechBoundary of internal/voice/speech_planner.go.
use agent_server.Prelude.{
  ℕ, ◌+◌, Bool, not, ◌&&◌, [], ◌∷◌, ◌==◌, ltb, if◌then◌else◌, length, is_empty, ℤ, pos, pos_part,
  leb_ℤ, ltb_ℤ, add64, quot, take, drop,
}
use agent_server.Text.{Text, codes, in_set, is_space, trim_space, trim_left}
use agent_server.BargeIn.Signals.{max_int}

abbrev pub default_speech_planner_min_chunk_runes : ℤ
default_speech_planner_min_chunk_runes = pos 6

abbrev pub default_speech_planner_target_chunk_runes : ℤ
default_speech_planner_target_chunk_runes = pos 24

abbrev pub default_speech_planner_max_chunk_runes : ℤ
default_speech_planner_max_chunk_runes = pos 42

abbrev pub default_speech_planner_queue_size : ℕ
default_speech_planner_queue_size = 4

pub record SpeechPlannerConfig : Type 0 where
  pub enabled : Bool
  pub min_chunk_runes : ℤ
  pub target_chunk_runes : ℤ

abbrev pub positive_or_default : ℤ → ℤ → ℤ
positive_or_default n default = if leb_ℤ n (pos 0) then default else n

unfoldable pub normalize_speech_planner_config : SpeechPlannerConfig → SpeechPlannerConfig
normalize_speech_planner_config cfg =
    let least = positive_or_default cfg.min_chunk_runes default_speech_planner_min_chunk_runes in
    let target =
      positive_or_default cfg.target_chunk_runes default_speech_planner_target_chunk_runes in
    record cfg {
      min_chunk_runes = least;
      target_chunk_runes = if ltb_ℤ target least then least else target;
    }

-- '.', '!', '?', ';', '\n', '。', '！', '？', '；', '…'
unfoldable pub is_strong_speech_boundary : ℕ → Bool
unfolding in_set
is_strong_speech_boundary r = in_set (10 ∷ codes ".!?;。！？；…") r

-- ',', ':', '，', '、', '：'
unfoldable pub is_soft_speech_boundary : ℕ → Bool
unfolding in_set
is_soft_speech_boundary r = in_set (codes ",:，、：") r

-- The cuts that the loop over the runes finds. 0 is none.
pub record Cuts : Type 0 where
  pub last_strong : ℕ
  pub last_soft : ℕ
  pub last_space : ℕ
  pub first_strong : ℕ
  pub first_soft : ℕ

abbrev pub no_cuts : Cuts
no_cuts = record {
  last_strong = 0;
  last_soft = 0;
  last_space = 0;
  first_strong = 0;
  first_soft = 0;
}

-- The first cut of its kind, once it is long enough.
abbrev pub first_cut : SpeechPlannerConfig → ℕ → ℕ → ℕ
first_cut cfg cut first = if first == 0 && leb_ℤ cfg.min_chunk_runes (pos cut) then cut else first

-- One round of the loop: the rune `r`, whose cut is behind it.
unfoldable pub note_rune : SpeechPlannerConfig → ℕ → ℕ → Cuts → Cuts
note_rune cfg cut r m =
    if is_strong_speech_boundary r
    then record m { last_strong = cut; first_strong = first_cut cfg cut m.first_strong }
    else if is_soft_speech_boundary r
    then record m { last_soft = cut; first_soft = first_cut cfg cut m.first_soft }
    else if is_space r
    then record m { last_space = cut }
    else m

unfoldable pub scan_runes : SpeechPlannerConfig → ℕ → Text → Cuts → Cuts
unfolding note_rune is_strong_speech_boundary is_soft_speech_boundary is_space
scan_runes cfg i [] m = m
scan_runes cfg i (r ∷ runes) m = scan_runes cfg (i + 1) runes (note_rune cfg (i + 1) r m)

unfoldable pub max_chunk_runes : SpeechPlannerConfig → ℤ
unfolding max_int add64 quot
max_chunk_runes cfg =
    let most = add64 cfg.target_chunk_runes (max_int (quot cfg.target_chunk_runes 2) (pos 8)) in
    if ltb_ℤ most default_speech_planner_max_chunk_runes
    then default_speech_planner_max_chunk_runes
    else most

-- The last `switch` of the function, where the planner flushes or keeps waiting.
unfoldable pub flushed_cut : SpeechPlannerConfig → Bool → ℕ → Cuts → ℤ
flushed_cut cfg flush total m =
    if flush
    then if ltb 0 m.first_soft && ltb m.first_soft total
      then pos m.first_soft
      else if leb_ℤ cfg.min_chunk_runes (pos m.last_soft)
      then pos m.last_soft
      else if leb_ℤ cfg.min_chunk_runes (pos m.last_space)
      then pos m.last_space
      else pos total
    else pos 0

-- The `if` on the longest chunk, and what follows it.
unfoldable pub forced_cut : SpeechPlannerConfig → Bool → ℕ → Cuts → ℤ
unfolding max_chunk_runes flushed_cut
forced_cut cfg flush total m =
    if leb_ℤ (max_chunk_runes cfg) (pos total)
    then if leb_ℤ cfg.min_chunk_runes (pos m.last_soft)
      then pos m.last_soft
      else if leb_ℤ cfg.min_chunk_runes (pos m.last_space)
      then pos m.last_space
      else if ltb_ℤ cfg.target_chunk_runes (pos total)
      then cfg.target_chunk_runes
      else pos total
    else flushed_cut cfg flush total m

-- The `if` on the target, and what follows it.
unfoldable pub target_cut : SpeechPlannerConfig → Bool → ℕ → Cuts → ℤ
unfolding forced_cut
target_cut cfg flush total m =
    if leb_ℤ cfg.target_chunk_runes (pos total)
    then if ltb 0 m.first_soft && ltb m.first_soft total
      then pos m.first_soft
      else if leb_ℤ cfg.min_chunk_runes (pos m.last_soft)
      then pos m.last_soft
      else if leb_ℤ cfg.min_chunk_runes (pos m.last_space)
      then pos m.last_space
      else if not flush
      then cfg.target_chunk_runes
      else forced_cut cfg flush total m
    else forced_cut cfg flush total m

-- What follows the marks: the early returns in their order.
unfoldable pub choose_cut : SpeechPlannerConfig → Bool → ℕ → Cuts → ℤ
unfolding target_cut
choose_cut cfg flush total m =
    if ltb 0 m.first_strong && ltb m.first_strong total
    then pos m.first_strong
    else if leb_ℤ cfg.min_chunk_runes (pos m.last_strong)
    then pos m.last_strong
    else if leb_ℤ cfg.min_chunk_runes (pos m.last_soft) && m.last_soft == total
    then pos m.last_soft
    else target_cut cfg flush total m

unfoldable pub planned_speech_boundary : SpeechPlannerConfig → Bool → Text → ℤ
unfolding scan_runes choose_cut
planned_speech_boundary cfg flush runes =
    if is_empty runes
    then pos 0
    else choose_cut cfg flush (length runes) (scan_runes cfg 0 runes no_cuts)

-- The segment that begins the text, trimmed, and what is left behind it.
unfoldable pub next_planned_speech_segment : SpeechPlannerConfig → Bool → Text → Text × Text
next_planned_speech_segment cfg flush text =
    let runes = trim_space text in
    let cut = planned_speech_boundary (normalize_speech_planner_config cfg) flush runes in
    if is_empty runes
    then ([], [])
    else if leb_ℤ cut (pos 0)
    then ([], runes)
    else let at = if ltb_ℤ (pos (length runes)) cut then length runes else pos_part cut in
      (trim_space (take at runes), trim_left is_space (drop at runes))
