-- ===== src/Speech/Reply.antt =====
-- The calls of a SpeechPlanner in internal/voice/speech_planner.go: what each makes of the text
-- that waits.
use agent_server.Prelude.{
  ℕ, suc, ◌+◌, if◌then◌else◌, ◌≡◌, inl, inr, refl, sym, ◌∙◌, Bool, true, false, not, Bool-cases,
  List, [], ◌++◌, append-nil, length, Option, some, arith,
}
use agent_server.Text.{Text, trim_space}
use agent_server.Text.Trim.{trim_space-IsTrimmed}
use agent_server.Speech.{SpeechPlanner, Planned, drain_clauses, observe_text_delta_clauses}
use agent_server.Speech.Boundary.{SpeechPlannerConfig}
use agent_server.Speech.Clause.{PlannedSpeechClause}
use agent_server.Speech.Segment.{solid, solid-append, solid-trim_space, blank_solid}
use agent_server.Speech.Advance.{is_blank}
use agent_server.Speech.Drain.{spoken, AreNumbered, AreTidy, EndsOnce, drain_loop-Ends}

-- What a call makes of the settings, the next index and the solid runes that wait.
pub record Plans (flush : Bool) (cfg : SpeechPlannerConfig) (index : ℕ) (pending : Text)
    (p' : SpeechPlanner) (new : List PlannedSpeechClause) : Type 0 where
  pub settled : p'.cfg ≡ cfg
  pub kept : spoken new ++ solid p'.pending ≡ pending
  pub numbered : AreNumbered index new
  pub counted : p'.next_clause_index ≡ index + length new
  pub tidy : AreTidy (not flush) new
  pub done : flush ≡ true → p'.pending ≡ []
  pub ended : flush ≡ true → EndsOnce new

-- A call that returns.
abbrev pub Returns : Bool → SpeechPlanner → Text → Text → Option Planned → Type 0
Returns flush p observed pending result =
    (p' : SpeechPlanner) × (new : List PlannedSpeechClause) × (result ≡ some (p', new))
    × (p'.observed ≡ observed)
    × Plans flush p.cfg p.next_clause_index pending p' new

pub drain_clauses-Returns :
    (flush : Bool) (p : SpeechPlanner)
    → Returns flush p p.observed (solid p.pending) (drain_clauses flush p)
unfolding drain_clauses
drain_clauses-Returns flush p = elim (Bool-cases (is_blank p.pending)) [
  | inl blank ↦ rw blank (
    record p { pending = [] },
    [],
    refl,
    refl,
    record {
      settled = refl;
      kept = sym (blank_solid p.pending blank);
      numbered = tt;
      counted = omega arith;
      tidy = tt;
      done = λ f. refl;
      ended = λ f. tt;
    },
  )
  | inr more ↦
      let pending = trim_space p.pending in
      let (new, d, e, all, drained) =
        drain_loop-Ends p.cfg flush (suc (length pending)) pending p.next_clause_index []
          (trim_space-IsTrimmed p.pending) more (omega arith) in
      rw (more, e, all)
        (
          record p { pending = d.pending; next_clause_index = d.next_clause_index },
          new,
          refl,
          refl,
          record {
            settled = refl;
            kept = drained.kept ∙ solid-trim_space p.pending;
            numbered = drained.numbered;
            counted = drained.counted;
            tidy = drained.tidy;
            done = drained.done;
            ended = drained.ended;
          },
        )
]

-- What the planner counts as observed: a blank delta is dropped.
abbrev pub noted : Text → Text
noted text = if is_blank text then [] else text

pub observe-Returns :
    (text : Text) (p : SpeechPlanner)
    → Returns false p
        (p.observed ++ noted text)
        (solid p.pending ++ solid text)
        (observe_text_delta_clauses text p)
unfolding observe_text_delta_clauses
observe-Returns text p = elim (Bool-cases (is_blank text)) [
  | inl blank ↦
      rw (blank, blank_solid text blank)
        (
          p,
          [],
          refl,
          sym (append-nil p.observed),
          record {
            settled = refl;
            kept = sym (append-nil (solid p.pending));
            numbered = tt;
            counted = omega arith;
            tidy = tt;
            done = λ f. cc;
            ended = λ f. tt;
          },
        )
  | inr more ↦
      rw (more, sym (solid-append p.pending text))
        (drain_clauses-Returns false
          (record p { observed = p.observed ++ text; pending = p.pending ++ text }))
]
