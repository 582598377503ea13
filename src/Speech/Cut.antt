-- ===== src/Speech/Cut.antt =====
-- The cut of plannedSpeechBoundary of internal/voice/speech_planner.go: its bounds.
use agent_server.Prelude.{
  ℕ, ◌+◌, ◌≤◌, ◌<◌, ◌≡◌, ◌⊎◌, Bool, true, false, [], ◌∷◌, length, is_empty, ℤ, pos, ◌≤ℤ◌, ◌<ℤ◌,
  add64, quot, wrap, arith,
}
use agent_server.Text.{Text}
use agent_server.BargeIn.Signals.{max_int}
use agent_server.Speech.Boundary.{
  SpeechPlannerConfig, normalize_speech_planner_config, Cuts, no_cuts, note_rune, scan_runes,
  max_chunk_runes, choose_cut, forced_cut, flushed_cut, target_cut, planned_speech_boundary,
}

-- Sizes of chunks that a clause can have: positive, and the target is no less than the minimum.
abbrev pub IsNormal : SpeechPlannerConfig → Type 0
IsNormal cfg = (pos 1 ≤ℤ cfg.min_chunk_runes) × (cfg.min_chunk_runes ≤ℤ cfg.target_chunk_runes)

pub normalize-IsNormal :
    (cfg : SpeechPlannerConfig) → IsNormal (normalize_speech_planner_config cfg)
unfolding normalize_speech_planner_config
normalize-IsNormal cfg = ground arith

-- The cuts lie within the first `n` runes, and the first ones are long enough.
pub record AreWithin (cfg : SpeechPlannerConfig) (n : ℕ) (m : Cuts) : Type 0 where
  last_strong_within : m.last_strong ≤ n
  last_soft_within : m.last_soft ≤ n
  last_space_within : m.last_space ≤ n
  first_strong_within : m.first_strong ≤ n
  first_soft_within : m.first_soft ≤ n
  first_strong_long : (m.first_strong ≡ 0) ⊎ (cfg.min_chunk_runes ≤ℤ pos m.first_strong)
  first_soft_long : (m.first_soft ≡ 0) ⊎ (cfg.min_chunk_runes ≤ℤ pos m.first_soft)

note_rune-AreWithin :
    (cfg : SpeechPlannerConfig) (n r : ℕ) (m : Cuts)
    → AreWithin cfg n m
    → AreWithin cfg (n + 1) (note_rune cfg (n + 1) r m)
unfolding note_rune
note_rune-AreWithin cfg n r m w = ground arith

scan_runes-AreWithin :
    (cfg : SpeechPlannerConfig) (n : ℕ) (runes : Text) (m : Cuts)
    → AreWithin cfg n m
    → AreWithin cfg (n + length runes) (scan_runes cfg n runes m)
unfolding scan_runes
scan_runes-AreWithin cfg n [] m w = ground arith
scan_runes-AreWithin cfg n (r ∷ runes) m w =
    let later =
      scan_runes-AreWithin cfg (n + 1) runes (note_rune cfg (n + 1) r m)
        (note_rune-AreWithin cfg n r m w) in
    ground arith

-- What a cut of `total` runes is.
abbrev IsCut : SpeechPlannerConfig → Bool → ℕ → ℤ → Type 0
IsCut cfg flush total cut = (cut ≤ℤ pos total) × (pos 0 ≤ℤ cut) × ((flush ≡ true) → pos 1 ≤ℤ cut)

flushed_cut-IsCut :
    (cfg : SpeechPlannerConfig) (flush : Bool) (total : ℕ) (m : Cuts)
    → IsNormal cfg
    → 0 < total
    → AreWithin cfg total m
    → IsCut cfg flush total (flushed_cut cfg flush total m)
unfolding flushed_cut
flushed_cut-IsCut cfg flush total m normal h w = ground arith

forced_cut-IsCut :
    (cfg : SpeechPlannerConfig) (flush : Bool) (total : ℕ) (m : Cuts)
    → IsNormal cfg
    → 0 < total
    → AreWithin cfg total m
    → IsCut cfg flush total (forced_cut cfg flush total m)
unfolding forced_cut
forced_cut-IsCut cfg flush total m normal h w =
    ground (arith, flushed_cut-IsCut cfg flush total m normal h w)

target_cut-IsCut :
    (cfg : SpeechPlannerConfig) (flush : Bool) (total : ℕ) (m : Cuts)
    → IsNormal cfg
    → 0 < total
    → AreWithin cfg total m
    → IsCut cfg flush total (target_cut cfg flush total m)
unfolding target_cut
target_cut-IsCut cfg flush total m normal h w =
    ground (arith, forced_cut-IsCut cfg flush total m normal h w)

-- The early returns before the target: each is a mark within the text.
choose_cut_marks :
    (cfg : SpeechPlannerConfig) (flush : Bool) (total : ℕ) (m : Cuts)
    → pos 1 ≤ℤ cfg.min_chunk_runes
    → m.first_strong ≤ total
    → m.last_strong ≤ total
    → m.last_soft ≤ total
    → IsCut cfg flush total (target_cut cfg flush total m)
    → IsCut cfg flush total (choose_cut cfg flush total m)
unfolding choose_cut
choose_cut_marks cfg flush total m least a b c h = ground arith

choose_cut-IsCut :
    (cfg : SpeechPlannerConfig) (flush : Bool) (total : ℕ) (m : Cuts)
    → IsNormal cfg
    → 0 < total
    → AreWithin cfg total m
    → IsCut cfg flush total (choose_cut cfg flush total m)
choose_cut-IsCut cfg flush total m normal h w =
    choose_cut_marks cfg flush total m normal.0 w.first_strong_within w.last_strong_within
      w.last_soft_within (target_cut-IsCut cfg flush total m normal h w)

no_cuts-AreWithin : (cfg : SpeechPlannerConfig) → AreWithin cfg 0 no_cuts
no_cuts-AreWithin cfg = ground arith

pub scan-AreWithin :
    (cfg : SpeechPlannerConfig) (runes : Text)
    → AreWithin cfg (length runes) (scan_runes cfg 0 runes no_cuts)
scan-AreWithin cfg runes =
    ground (arith, scan_runes-AreWithin cfg 0 runes no_cuts (no_cuts-AreWithin cfg))

pub boundary-IsCut :
    (cfg : SpeechPlannerConfig) (flush : Bool) (runes : Text)
    → IsNormal cfg
    → 0 < length runes
    → IsCut cfg flush (length runes) (planned_speech_boundary cfg flush runes)
unfolding planned_speech_boundary
boundary-IsCut cfg flush [] normal h = absurd (omega arith)
boundary-IsCut cfg flush (r ∷ runes) normal h =
    choose_cut-IsCut cfg flush (length (r ∷ runes)) (scan_runes cfg 0 (r ∷ runes) no_cuts) normal h
      (scan-AreWithin cfg (r ∷ runes))

-- A live cut is long enough, and there is one once the target is reached.
abbrev IsLive : SpeechPlannerConfig → ℕ → ℤ → Type 0
IsLive cfg total cut =
    ((cut ≡ pos 0) ⊎ (cfg.min_chunk_runes ≤ℤ cut))
    × ((cut ≡ pos 0) → pos (total + 1) ≤ℤ cfg.target_chunk_runes)

max_chunk_runes_lem :
    (cfg : SpeechPlannerConfig)
    → IsNormal cfg
    → cfg.target_chunk_runes ≤ℤ pos 4611686018427387904
    → cfg.target_chunk_runes ≤ℤ max_chunk_runes cfg
unfolding max_chunk_runes max_int add64 quot wrap
max_chunk_runes_lem cfg normal h = ground arith

forced_cut-IsLive :
    (cfg : SpeechPlannerConfig) (total : ℕ) (m : Cuts)
    → IsNormal cfg
    → cfg.target_chunk_runes ≤ℤ pos 4611686018427387904
    → pos (total + 1) ≤ℤ cfg.target_chunk_runes
    → IsLive cfg total (forced_cut cfg false total m)
unfolding forced_cut flushed_cut
forced_cut-IsLive cfg total m normal h short = ground (arith, max_chunk_runes_lem cfg normal h)

target_cut-IsLive :
    (cfg : SpeechPlannerConfig) (total : ℕ) (m : Cuts)
    → IsNormal cfg
    → cfg.target_chunk_runes ≤ℤ pos 4611686018427387904
    → AreWithin cfg total m
    → IsLive cfg total (target_cut cfg false total m)
unfolding target_cut
target_cut-IsLive cfg total m normal h w = ground (arith, forced_cut-IsLive cfg total m normal h)

choose_cut-IsLive :
    (cfg : SpeechPlannerConfig) (total : ℕ) (m : Cuts)
    → IsNormal cfg
    → cfg.target_chunk_runes ≤ℤ pos 4611686018427387904
    → AreWithin cfg total m
    → IsLive cfg total (choose_cut cfg false total m)
unfolding choose_cut
choose_cut-IsLive cfg total m normal h w = ground (arith, target_cut-IsLive cfg total m normal h w)

pub live_boundary :
    (cfg : SpeechPlannerConfig) (runes : Text)
    → IsNormal cfg
    → cfg.target_chunk_runes ≤ℤ pos 4611686018427387904
    → cfg.target_chunk_runes ≤ℤ pos (length runes)
    → is_empty runes ≡ false
    → pos 1 ≤ℤ planned_speech_boundary cfg false runes
unfolding planned_speech_boundary
live_boundary cfg [] normal h long k = cc
live_boundary cfg (r ∷ runes) normal h long k = ground (
  arith,
  choose_cut-IsLive cfg (length (r ∷ runes)) (scan_runes cfg 0 (r ∷ runes) no_cuts) normal h
      (scan-AreWithin cfg (r ∷ runes)),
)

pub normalize_normal :
    (cfg : SpeechPlannerConfig) → IsNormal cfg → normalize_speech_planner_config cfg ≡ cfg
unfolding normalize_speech_planner_config
normalize_normal cfg normal = ground arith

-- Any part of a nonempty text that plannedSpeechBoundary cuts off lies within it. Without a flush,
-- it has the minimal length at least, or there is no cut and the text is shorter than the target;
-- with one, there is a cut. (The settings are normal, and the target is at most 2 ^ 62 runes.)
pub planned_speech_boundary_bounds :
    (cfg : SpeechPlannerConfig) (r : ℕ) (runes : Text)
    → IsNormal cfg
    → cfg.target_chunk_runes ≤ℤ pos 4611686018427387904
    → let live = planned_speech_boundary cfg false (r ∷ runes) in
      let flushed = planned_speech_boundary cfg true (r ∷ runes) in
      (pos 0 ≤ℤ live)
      × (live ≤ℤ pos (length (r ∷ runes)))
      × ((cfg.min_chunk_runes ≤ℤ live)
          ⊎ (live ≡ pos 0) × (pos (length (r ∷ runes)) <ℤ cfg.target_chunk_runes))
      × (pos 1 ≤ℤ flushed)
      × (flushed ≤ℤ pos (length (r ∷ runes)))
unfolding planned_speech_boundary
planned_speech_boundary_bounds cfg r runes normal h = ground (
  arith,
  boundary-IsCut cfg false (r ∷ runes) normal,
  boundary-IsCut cfg true (r ∷ runes) normal,
  choose_cut-IsLive cfg (length (r ∷ runes)) (scan_runes cfg 0 (r ∷ runes) no_cuts) normal h
      (scan-AreWithin cfg (r ∷ runes)),
)
