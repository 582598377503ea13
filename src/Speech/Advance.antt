-- ===== src/Speech/Advance.antt =====
-- The next clause of a text, of nextPlannedSpeechClause in internal/voice/speech_planner.go: what it
-- takes off the text, and how it is marked.
use agent_server.Prelude.{
  ℕ, ◌≤ℤ◌, ◌≡◌, inl, inr, refl, Bool, true, false, not, Bool-cases, length, is_empty, pos, arith,
}
use agent_server.Text.{Text, trim_space}
use agent_server.Text.Trim.{IsTrimmed, trim_space-IsTrimmed, trim_space-nil}
use agent_server.Speech.Cut.{IsNormal}
use agent_server.Speech.Boundary.{SpeechPlannerConfig, next_planned_speech_segment}
use agent_server.Speech.Clause.{
  PlannedSpeechClause, is_final_flush, next_planned_speech_clause, clause_of_segment,
  classify_speech_clause_boundary, classify_planned_speech_clause,
}
use agent_server.Speech.Segment.{
  solid-trim_space, segment-Splits, Splits, blank_solid, flushed_segment, prompt_segment,
}

abbrev pub is_blank : Text → Bool
is_blank s = is_empty (trim_space s)

-- The marks of a clause that is not blank.
pub record IsMarked (flush : Bool) (index : ℕ) (c : PlannedSpeechClause) (rest : Text)
    : Type 0 where
  pub numbered : c.index ≡ index
  pub tidy : IsTrimmed c.text
  pub eager : c.can_start_before_finalized ≡ not flush
  pub final : flush ≡ true → is_final_flush c.boundary_kind ≡ is_empty rest

final_kind :
    (segment rest : Text)
    → is_blank segment ≡ false
    → IsTrimmed rest
    → is_final_flush (classify_speech_clause_boundary segment rest true) ≡ is_empty rest
unfolding classify_speech_clause_boundary
final_kind segment rest h t = rw t (ground arith)

clause_of-Splits :
    (flush can_start : Bool) (index : ℕ) (runes segment rest : Text)
    → Splits runes segment rest
    → let next = clause_of_segment flush can_start index (segment, rest) in
      Splits runes (next.0).text next.1
unfolding clause_of_segment classify_planned_speech_clause
clause_of-Splits flush can_start index runes segment rest s =
    elim (Bool-cases (is_empty (trim_space segment))) [
      | inl blank ↦ rw blank (record {
        kept = rw (blank_solid segment blank) at s.kept;
        trimmed = s.trimmed;
        shorter = inl (rw trim_space-nil refl);
      })
      | inr more ↦ rw more (record {
        kept = rw (solid-trim_space segment) s.kept;
        trimmed = s.trimmed;
        shorter = rw (trim_space-IsTrimmed segment) s.shorter;
      })
    ]

pub next_clause-Splits :
    (cfg : SpeechPlannerConfig) (flush can_start : Bool) (index : ℕ) (text : Text)
    → let next = next_planned_speech_clause cfg flush can_start index text in
      Splits (trim_space text) (next.0).text next.1
unfolding next_planned_speech_clause
next_clause-Splits cfg flush can_start index text =
    let next = next_planned_speech_segment cfg flush text in
    clause_of-Splits flush can_start index (trim_space text) next.0 next.1
      (segment-Splits cfg flush text)

clause_of-IsMarked :
    (flush : Bool) (index : ℕ) (segment rest : Text)
    → IsTrimmed rest
    → let next = clause_of_segment flush (not flush) index (segment, rest) in
      is_blank (next.0).text ≡ false → IsMarked flush index next.0 next.1
unfolding clause_of_segment classify_planned_speech_clause
clause_of-IsMarked flush index segment rest t = elim (Bool-cases (is_empty (trim_space segment))) [
  | inl blank ↦ rw (blank, trim_space-nil) (λ e. cc)
  | inr more ↦ rw more (λ e. record {
    numbered = refl;
    tidy = trim_space-IsTrimmed segment;
    eager = refl;
    final = λ f. rw f (final_kind segment rest more t);
  })
]

pub next_clause-IsMarked :
    (cfg : SpeechPlannerConfig) (flush : Bool) (index : ℕ) (text : Text)
    → let next = next_planned_speech_clause cfg flush (not flush) index text in
      is_blank (next.0).text ≡ false → IsMarked flush index next.0 next.1
unfolding next_planned_speech_clause
next_clause-IsMarked cfg flush index text =
    let next = next_planned_speech_segment cfg flush text in
    clause_of-IsMarked flush index next.0 next.1 (segment-Splits cfg flush text).trimmed

clause_of_nonblank :
    (flush can_start : Bool) (index : ℕ) (segment rest : Text)
    → is_blank segment ≡ false
    → is_blank ((clause_of_segment flush can_start index (segment, rest)).0).text ≡ false
unfolding clause_of_segment classify_planned_speech_clause
clause_of_nonblank flush can_start index segment rest h = rw h (rw (trim_space-IsTrimmed segment) h)

pub flushed_clause :
    (cfg : SpeechPlannerConfig) (index : ℕ) (text : Text)
    → is_blank text ≡ false
    → is_blank ((next_planned_speech_clause cfg true false index text).0).text ≡ false
unfolding next_planned_speech_clause
flushed_clause cfg index text h =
    let next = next_planned_speech_segment cfg true text in
    clause_of_nonblank true false index next.0 next.1 (flushed_segment cfg text h)

pub prompt_clause :
    (cfg : SpeechPlannerConfig) (index : ℕ) (text : Text)
    → IsNormal cfg
    → cfg.target_chunk_runes ≤ℤ pos 4611686018427387904
    → is_blank text ≡ false
    → cfg.target_chunk_runes ≤ℤ pos (length (trim_space text))
    → is_blank ((next_planned_speech_clause cfg false true index text).0).text ≡ false
unfolding next_planned_speech_clause
prompt_clause cfg index text normal small k long =
    let next = next_planned_speech_segment cfg false text in
    clause_of_nonblank false true index next.0 next.1 (prompt_segment cfg text normal small k long)
