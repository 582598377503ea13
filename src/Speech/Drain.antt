-- ===== src/Speech/Drain.antt =====
-- The loop of drainClauses in internal/voice/speech_planner.go: it ends, it loses nothing, and it
-- numbers the clauses.
use agent_server.Prelude.{
  ℕ, zero, suc, ◌+◌, ◌<◌, ◌≡◌, ◌⊎◌, inl, inr, refl, sym, ◌∙◌, Bool, true, false, not, Bool-cases,
  List, [], ◌∷◌, ◌++◌, append-nil, append_assoc, length, is_empty, Option, some, arith,
}
use agent_server.Text.{Text}
use agent_server.Text.Trim.{IsTrimmed, IsTrimmed-nil}
use agent_server.Speech.{Drained, drain_loop}
use agent_server.Speech.Boundary.{SpeechPlannerConfig}
use agent_server.Speech.Clause.{PlannedSpeechClause, is_final_flush, next_planned_speech_clause}
use agent_server.Speech.Segment.{solid, Splits}
use agent_server.Speech.Advance.{
  is_blank, IsMarked, next_clause-Splits, next_clause-IsMarked, flushed_clause,
}

-- The solid runes of all clauses, one after another.
abbrev pub spoken : List PlannedSpeechClause → Text
spoken [] = []
spoken (c ∷ clauses) = solid c.text ++ spoken clauses

-- The clauses are numbered from `n` on.
abbrev pub AreNumbered : ℕ → List PlannedSpeechClause → Type 0
AreNumbered n [] = Unit
AreNumbered n (c ∷ clauses) = (c.index ≡ n) × AreNumbered (n + 1) clauses

-- None is blank, each is trimmed, and says whether it may be spoken before the text is final.
abbrev pub AreTidy : Bool → List PlannedSpeechClause → Type 0
AreTidy eager [] = Unit
AreTidy eager (c ∷ clauses) =
    (is_blank c.text ≡ false)
    × IsTrimmed c.text
    × (c.can_start_before_finalized ≡ eager)
    × AreTidy eager clauses

-- The last clause ends the reply, and no other does.
abbrev pub EndsOnce : List PlannedSpeechClause → Type 0
EndsOnce [] = Unit
EndsOnce (c ∷ clauses) = (is_final_flush c.boundary_kind ≡ is_empty clauses) × EndsOnce clauses

-- What the loop makes of a text: the new clauses, and what still waits.
pub record Drains (flush : Bool) (pending : Text) (index : ℕ) (new : List PlannedSpeechClause)
    (d : Drained) : Type 0 where
  pub kept : spoken new ++ solid d.pending ≡ solid pending
  pub numbered : AreNumbered index new
  pub counted : d.next_clause_index ≡ index + length new
  pub tidy : AreTidy (not flush) new
  pub trimmed : IsTrimmed d.pending
  pub done : flush ≡ true → d.pending ≡ []
  pub ended : flush ≡ true → EndsOnce new
  pub begun : flush ≡ true → is_empty new ≡ is_empty pending

flushed :
    (cfg : SpeechPlannerConfig) (flush : Bool) (index : ℕ) (text : Text)
    → is_blank text ≡ false
    → flush ≡ true
    → is_blank ((next_planned_speech_clause cfg flush (not flush) index text).0).text ≡ false
flushed cfg true index text h e = flushed_clause cfg index text h
flushed cfg false index text h e = cc

empty_nil : (s : Text) → is_empty s ≡ true → s ≡ []
empty_nil [] e = refl
empty_nil (c ∷ s) e = cc

-- The loop stops, at a text that is used up or in a round that finds no clause.
Drains-stop :
    (flush : Bool) (pending : Text) (index : ℕ) (clauses : List PlannedSpeechClause)
    → IsTrimmed pending
    → (flush ≡ true → pending ≡ [])
    → Drains flush pending index []
        (record { pending = pending; next_clause_index = index; clauses = clauses })
Drains-stop flush pending index clauses t done = record {
  kept = refl;
  numbered = tt;
  counted = omega arith;
  tidy = tt;
  trimmed = t;
  done = done;
  ended = λ f. tt;
  begun = λ f. rw (done f) refl;
}

-- A round that takes a clause, before those of the later rounds.
Drains-cons :
    (flush : Bool) (pending rest : Text) (index : ℕ) (c : PlannedSpeechClause)
    (new : List PlannedSpeechClause) (d : Drained)
    → is_empty pending ≡ false
    → solid c.text ++ solid rest ≡ solid pending
    → is_blank c.text ≡ false
    → IsMarked flush index c rest
    → Drains flush rest (index + 1) new d
    → Drains flush pending index (c ∷ new) d
Drains-cons flush pending rest index c new d k kept more m later = record {
  kept = append_assoc (solid c.text) (spoken new) (solid d.pending) ∙ rw later.kept kept;
  numbered = (m.numbered, later.numbered);
  counted = omega (arith, later.counted);
  tidy = (more, m.tidy, m.eager, later.tidy);
  trimmed = later.trimmed;
  done = later.done;
  ended = λ f. (m.final f ∙ sym (later.begun f), later.ended f);
  begun = λ f. sym k;
}

fewer :
    (text rest pending : Text) (fuel : ℕ)
    → is_blank text ≡ false
    → (is_blank text ≡ true) ⊎ (length rest < length pending)
    → length pending < suc fuel
    → length rest < fuel
fewer text rest pending fuel more (inl blank) h = cc
fewer text rest pending fuel more (inr less) h = omega arith

-- A loop that ends, from the clauses so far.
abbrev Ends : Bool → Text → ℕ → List PlannedSpeechClause → Option Drained → Type 0
Ends flush pending index clauses result =
    (new : List PlannedSpeechClause) × (d : Drained) × (result ≡ some d)
    × (d.clauses ≡ clauses ++ new)
    × Drains flush pending index new d

pub drain_loop-Ends :
    (cfg : SpeechPlannerConfig) (flush : Bool) (fuel : ℕ) (pending : Text) (index : ℕ)
    (clauses : List PlannedSpeechClause)
    → IsTrimmed pending
    → is_empty pending ≡ false
    → length pending < fuel
    → Ends flush pending index clauses (drain_loop cfg flush fuel pending index clauses)
unfolding drain_loop
drain_loop-Ends cfg flush zero pending index clauses t k h = absurd (omega arith)
drain_loop-Ends cfg flush (suc fuel) pending index clauses t k h =
    let next = next_planned_speech_clause cfg flush (not flush) index pending in
    let c = next.0 in
    let rest = next.1 in
    let split : Splits pending c.text rest =
      rw t at (next_clause-Splits cfg flush (not flush) index pending) in
    elim (Bool-cases (is_blank c.text)) [
      | inl blank ↦ rw blank (
        [],
        record { pending = pending; next_clause_index = index; clauses = clauses },
        refl,
        sym (append-nil clauses),
        Drains-stop flush pending index clauses t
            (λ f. cc (blank, flushed cfg flush index pending (rw t k) f)),
      )
      | inr more ↦
          let marked = next_clause-IsMarked cfg flush index pending more in
          elim (Bool-cases (is_empty rest)) [
            | inl done ↦
                rw (more, done)
                  (
                    c ∷ [],
                    record {
                      pending = [];
                      next_clause_index = index + 1;
                      clauses = clauses ++ c ∷ [];
                    },
                    refl,
                    refl,
                    Drains-cons flush pending rest index c [] _ k split.kept more marked (
                        rw (empty_nil rest done) (
                          Drains-stop flush [] (index + 1) (clauses ++ c ∷ []) IsTrimmed-nil
                            (λ f. refl))),
                  )
            | inr on ↦
                let (new, d, e, all, later) =
                  drain_loop-Ends cfg flush fuel rest (index + 1) (clauses ++ c ∷ []) split.trimmed
                    on (fewer c.text rest pending fuel more split.shorter h) in
                rw (more, on)
                  (
                    c ∷ new,
                    d,
                    e,
                    all ∙ append_assoc clauses (c ∷ []) new,
                    Drains-cons flush pending rest index c new d k split.kept more marked later,
                  )
          ]
    ]
