-- ===== src/Speech/Segment.antt =====
-- What nextPlannedSpeechSegment of internal/voice/speech_planner.go keeps of a text: every rune
-- that is no blank, in its order.
use agent_server.Prelude.{
  ℕ, zero, suc, ◌-◌, ◌∙◌, ◌≤◌, ◌≤ℤ◌, ◌<◌, ◌≡◌, ◌⊎◌, inl, inr, refl, sym, ap, Bool, true, false,
  if-cases, [], ◌∷◌, ◌++◌, length, is_empty, ◌&&◌, ℤ, pos, pos_part, leb_ℤ, ltb_ℤ, if◌then◌else◌,
  arith, take, drop, take-append-drop,
}
use agent_server.Text.{Text, is_space, trim_left, trim_right, trim_space}
use agent_server.Text.Trim.{
  IsTrimmed, trim_space-IsTrimmed, IsTrimmed-head, EndsSolid-drop, EndsSolid-IsTrimmed,
  IsTrimmed-EndsSolid, trim_left-length, IsTrimmed-nil, trim_space-nil,
}
use agent_server.Speech.Cut.{
  boundary-IsCut, normalize-IsNormal, IsNormal, live_boundary, normalize_normal,
}
use agent_server.Speech.Boundary.{
  SpeechPlannerConfig, normalize_speech_planner_config, planned_speech_boundary,
  next_planned_speech_segment,
}

-- The runes of a text that are no blanks.
abbrev pub solid : Text → Text
solid [] = []
solid (c ∷ s) = if is_space c then solid s else c ∷ solid s

pub solid-append : (s t : Text) → solid (s ++ t) ≡ solid s ++ solid t
solid-append [] t = refl
solid-append (c ∷ s) t = ground (arith, solid-append s t)

pub solid-trim_left : (s : Text) → solid (trim_left is_space s) ≡ solid s
unfolding trim_left
solid-trim_left [] = refl
solid-trim_left (c ∷ s) = ground (arith, solid-trim_left s)

-- A rune before a rest that is trimmed.
solid_rune :
    (c : ℕ) (t : Text)
    → solid (if is_empty t && is_space c then [] else c ∷ t)
      ≡ (if is_space c then solid t else c ∷ solid t)
solid_rune c [] = ground arith
solid_rune c (d ∷ t) = refl

pub solid-trim_right : (s : Text) → solid (trim_right is_space s) ≡ solid s
unfolding trim_right
solid-trim_right [] = refl
solid-trim_right (c ∷ s) = rw (solid_rune c (trim_right is_space s)) (rw (solid-trim_right s) refl)

pub solid-trim_space : (s : Text) → solid (trim_space s) ≡ solid s
unfolding trim_space
solid-trim_space s = rw (solid-trim_right (trim_left is_space s)) (solid-trim_left s)

is_empty-solid : (s : Text) → IsTrimmed s → is_empty s ≡ is_empty (solid s)
is_empty-solid [] h = refl
is_empty-solid (c ∷ s) h = rw (IsTrimmed-head c s h) refl

-- A text is blank if it has no solid rune.
pub is_empty-trim_space : (s : Text) → is_empty (trim_space s) ≡ is_empty (solid s)
is_empty-trim_space s =
    is_empty-solid (trim_space s) (trim_space-IsTrimmed s) ∙ ap is_empty (solid-trim_space s)

pub blank_solid : (s : Text) → is_empty (trim_space s) ≡ true → solid s ≡ []
blank_solid s h = nothing (solid s) (sym (is_empty-trim_space s) ∙ h)
  where
    nothing : (t : Text) → is_empty t ≡ true → t ≡ []
    nothing [] e = refl
    nothing (c ∷ t) e = cc

-- What begins a trimmed text is not blank.
take_nonblank :
    (n : ℕ) (s : Text)
    → IsTrimmed s
    → 0 < n
    → is_empty s ≡ false
    → is_empty (trim_space (take n s)) ≡ false
take_nonblank zero s t h k = absurd (omega arith)
take_nonblank (suc n) [] t h k = cc
take_nonblank (suc n) (c ∷ s) t h k =
    is_empty-trim_space (c ∷ take n s) ∙ rw (IsTrimmed-head c s t) refl

pub length-drop : (n : ℕ) (s : Text) → length (drop n s) ≤ length s - n
length-drop zero s = omega arith
length-drop (suc n) [] = omega arith
length-drop (suc n) (c ∷ s) = omega (arith, length-drop n s)

-- What a segment and its rest are: no solid rune is lost, and a segment that is not blank is taken
-- off the trimmed text, whose rest stays trimmed.
pub record Splits (runes : Text) (segment rest : Text) : Type 0 where
  pub kept : solid segment ++ solid rest ≡ solid runes
  pub trimmed : IsTrimmed rest
  pub shorter : (is_empty (trim_space segment) ≡ true) ⊎ (length rest < length runes)

cut_runes :
    (runes : Text) (at : ℕ)
    → IsTrimmed runes
    → is_empty runes ≡ false
    → 0 < at
    → Splits runes (trim_space (take at runes)) (trim_left is_space (drop at runes))
cut_runes runes at t k h = record {
  kept =
      rw (solid-trim_space (take at runes), solid-trim_left (drop at runes))
        (sym (solid-append (take at runes) (drop at runes)) ∙ ap solid (take-append-drop at runes));
  trimmed =
      EndsSolid-IsTrimmed (drop at runes) (EndsSolid-drop at runes (IsTrimmed-EndsSolid runes t));
  shorter = inr (shorter runes k);
}
  where
    shorter : (s : Text) → is_empty s ≡ false → length (trim_left is_space (drop at s)) < length s
    shorter [] e = cc
    shorter (c ∷ s) e =
        omega (arith, trim_left-length is_space (drop at (c ∷ s)), length-drop at (c ∷ s))

Splits-none : (runes : Text) → is_empty runes ≡ true → Splits runes [] []
Splits-none [] e = record {
  kept = refl;
  trimmed = IsTrimmed-nil;
  shorter = inl (rw trim_space-nil refl);
}
Splits-none (c ∷ s) e = cc

Splits-wait : (runes : Text) → IsTrimmed runes → Splits runes [] runes
Splits-wait runes t = record { kept = refl; trimmed = t; shorter = inl (rw trim_space-nil refl) }

-- A cut that is not 0 takes a rune, also where it is brought back into the text.
at_least_one :
    (cut : ℤ) (runes : Text)
    → is_empty runes ≡ false
    → leb_ℤ cut (pos 0) ≡ false
    → 0 < (if ltb_ℤ (pos (length runes)) cut then length runes else pos_part cut)
at_least_one cut [] k c = cc
at_least_one cut (r ∷ runes) k c = ground arith

positive : (cut : ℤ) → pos 1 ≤ℤ cut → leb_ℤ cut (pos 0) ≡ false
positive cut h = ground arith

nonempty : (s : Text) → is_empty s ≡ false → 0 < length s
nonempty [] e = cc
nonempty (c ∷ s) e = omega arith

pub segment-Splits :
    (cfg : SpeechPlannerConfig) (flush : Bool) (text : Text)
    → let next = next_planned_speech_segment cfg flush text in
      Splits (trim_space text) next.0 next.1
unfolding next_planned_speech_segment
segment-Splits cfg flush text =
    let runes = trim_space text in
    let cut = planned_speech_boundary (normalize_speech_planner_config cfg) flush runes in
    let at = if ltb_ℤ (pos (length runes)) cut then length runes else pos_part cut in
    if-cases {A = Text × Text} (λ r. Splits runes r.0 r.1) (is_empty runes) ([], [])
      (if leb_ℤ cut (pos 0)
        then ([], runes)
        else (trim_space (take at runes), trim_left is_space (drop at runes)))
      (Splits-none runes)
      (λ k.
        if-cases {A = Text × Text} (λ r. Splits runes r.0 r.1) (leb_ℤ cut (pos 0)) ([], runes)
          (trim_space (take at runes), trim_left is_space (drop at runes))
          (λ _. Splits-wait runes (trim_space-IsTrimmed text))
          (λ c. cut_runes runes at (trim_space-IsTrimmed text) k (at_least_one cut runes k c)))

-- Where there is a cut, there is a segment.
cut_segment :
    (cfg : SpeechPlannerConfig) (flush : Bool) (text : Text)
    → is_empty (trim_space text) ≡ false
    → pos 1 ≤ℤ planned_speech_boundary (normalize_speech_planner_config cfg) flush (trim_space text)
    → is_empty (trim_space (next_planned_speech_segment cfg flush text).0) ≡ false
unfolding next_planned_speech_segment
cut_segment cfg flush text k found =
    let runes = trim_space text in
    let cut = planned_speech_boundary (normalize_speech_planner_config cfg) flush runes in
    let at = if ltb_ℤ (pos (length runes)) cut then length runes else pos_part cut in
    let taken = positive cut found in
    rw (k, taken)
      (rw (trim_space-IsTrimmed (take at runes))
        (take_nonblank at runes (trim_space-IsTrimmed text) (at_least_one cut runes k taken) k))

-- With a flush a segment is taken, whatever the settings are.
pub flushed_segment :
    (cfg : SpeechPlannerConfig) (text : Text)
    → is_empty (trim_space text) ≡ false
    → is_empty (trim_space (next_planned_speech_segment cfg true text).0) ≡ false
flushed_segment cfg text k =
    let normal = normalize_speech_planner_config cfg in
    cut_segment cfg true text k (
      (boundary-IsCut normal true (trim_space text) (normalize-IsNormal cfg)
          (nonempty (trim_space text) k)).2
        refl)

-- Without one, a segment is taken off a text as long as the target.
pub prompt_segment :
    (cfg : SpeechPlannerConfig) (text : Text)
    → IsNormal cfg
    → cfg.target_chunk_runes ≤ℤ pos 4611686018427387904
    → is_empty (trim_space text) ≡ false
    → cfg.target_chunk_runes ≤ℤ pos (length (trim_space text))
    → is_empty (trim_space (next_planned_speech_segment cfg false text).0) ≡ false
prompt_segment cfg text normal small k long =
    cut_segment cfg false text k
      (rw (normalize_normal cfg normal) (live_boundary cfg (trim_space text) normal small long k))
