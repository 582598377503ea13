-- ===== src/Speech/Final.antt =====
-- The final text of a reply against its deltas: Finalize in internal/voice/speech_planner.go.
use agent_server.Prelude.{
  ℕ, ◌≡◌, refl, sym, ap, ap₂, ◌∙◌, true, false, List, [], ◌∷◌, ◌++◌, append-nil, append_assoc,
  is_empty, concat, map, some,
}
use agent_server.Text.{Text, is_space, trim_space, trim_right}
use agent_server.Speech.{SpeechPlanner, speak_reply, finalize_text_clauses, planner_remaining_tail}
use agent_server.Speech.Boundary.{SpeechPlannerConfig}
use agent_server.Speech.Clause.{PlannedSpeechClause}
use agent_server.Speech.Segment.{
  solid, solid-append, solid-trim_space, blank_solid, is_empty-trim_space,
}
use agent_server.Speech.Advance.{is_blank}
use agent_server.Speech.Drain.{spoken, EndsOnce}
use agent_server.Speech.Reply.{noted}
use agent_server.Speech.Spoken.{speak_reply_complete, finalize-Returns}
use agent_server.Speech.Tail.{
  tail_of, tail_of_more, solid-noted_all, nonblank_append, nonempty_append, common_length-blank,
  blank-common_length, solid_around, rune_nonblank, trimmed_around,
}

-- If the final text begins with the deltas that are not blank, the clauses speak it: its runes that
-- are no blanks, each once and in their order.
pub speak_reply-final :
    (cfg : SpeechPlannerConfig) (deltas : List Text) (final more : Text)
    → final ≡ concat (map noted deltas) ++ more
    → (p : SpeechPlanner) × (clauses : List PlannedSpeechClause) × (speak_reply cfg deltas final
        ≡ some (p, clauses))
      × (spoken clauses ≡ solid final)
speak_reply-final cfg deltas final more e =
    let seen = concat (map noted deltas) in
    let (p, clauses, run, all, _, _, _, _) = speak_reply_complete cfg deltas final in
    (
      p,
      clauses,
      run,
      all
          ∙ rw (e, tail_of_more seen more, sym (solid-noted_all deltas))
              (sym (solid-append seen more)),
    )

-- A delta of blanks is dropped, and the final text holds it, so that the tail begins at those blanks:
-- the delta behind them is spoken twice. (The first delta is not blank, and the last begins with no
-- blank.)
pub blank_delta_repeats :
    (cfg : SpeechPlannerConfig) (first blanks : Text) (c : ℕ) (last : Text)
    → is_blank first ≡ false
    → is_empty blanks ≡ false
    → is_blank blanks ≡ true
    → is_space c ≡ false
    → (p : SpeechPlanner) × (clauses : List PlannedSpeechClause) × (speak_reply cfg
          (first ∷ blanks ∷ (c ∷ last) ∷ [])
          (first ++ (blanks ++ c ∷ last))
        ≡ some (p, clauses))
      × (spoken clauses ≡ solid first ++ (solid (c ∷ last) ++ solid (c ∷ last)))
blank_delta_repeats cfg first blanks c last h k b n =
    let final = first ++ (blanks ++ c ∷ last) in
    let (p, clauses, run, all, _, _, _, _) =
      speak_reply_complete cfg (first ∷ blanks ∷ (c ∷ last) ∷ []) final in
    let seen : concat (map noted (first ∷ blanks ∷ (c ∷ last) ∷ [])) ≡ first ++ c ∷ last =
      rw (h, b, rune_nonblank c last n, append-nil last) refl in
    let tail : planner_remaining_tail (first ++ c ∷ last) final ≡ blanks ++ c ∷ last =
      tail_of first (c ∷ last) (blanks ++ c ∷ last) (nonblank_append first (blanks ++ c ∷ last) h)
        (nonempty_append first last c)
        (common_length-blank c last blanks (c ∷ last) n k (blank_solid blanks b)) in
    let none = blank_solid blanks b in
    let deltas : solid (concat (first ∷ blanks ∷ (c ∷ last) ∷ []))
        ≡ solid first ++ solid (c ∷ last) =
      rw (append-nil last) (solid_around first blanks (c ∷ last) none) in
    let repeated : solid
          (planner_remaining_tail (concat (map noted (first ∷ blanks ∷ (c ∷ last) ∷ []))) final)
        ≡ solid (c ∷ last) =
      ap solid (ap (λ t. planner_remaining_tail t final) seen ∙ tail)
      ∙ solid_around [] blanks (c ∷ last) none in
    (
      p,
      clauses,
      run,
      all
          ∙ ap₂ ◌++◌ deltas repeated
          ∙ append_assoc (solid first) (solid (c ∷ last)) (solid (c ∷ last)),
    )

-- Finalising always returns, leaves nothing waiting, and its clauses speak what waited and the tail;
-- of these clauses the last is marked as the last segment, and no other is.
pub finalize-EndsOnce :
    (text : Text) (p : SpeechPlanner)
    → (p' : SpeechPlanner) × (clauses : List PlannedSpeechClause) × (finalize_text_clauses text p
        ≡ some (p', clauses))
      × (p'.pending ≡ [])
      × (spoken clauses ≡ solid p.pending ++ solid (planner_remaining_tail p.observed text))
      × EndsOnce clauses
finalize-EndsOnce text p =
    let (p', clauses, e, _, plans) = finalize-Returns text p in
    (
      p',
      clauses,
      e,
      plans.done refl,
      sym (append-nil (spoken clauses)) ∙ rw (plans.done refl) at plans.kept,
      plans.ended refl,
    )

-- A reply whose first delta begins with blanks and then a text is spoken twice, whatever the further
-- deltas are, when the final text is all the deltas together without the blanks around them, as the
-- executor gives it: the texts differ at the first rune, so that all of the final text counts as not yet
-- spoken.
pub leading_blank_repeats :
    (cfg : SpeechPlannerConfig) (blanks : Text) (c : ℕ) (text : Text) (later : List Text)
    → is_empty blanks ≡ false
    → is_blank blanks ≡ true
    → is_space c ≡ false
    → let whole = concat ((blanks ++ c ∷ text) ∷ later) in
      (p : SpeechPlanner) × (clauses : List PlannedSpeechClause) × (speak_reply cfg
          ((blanks ++ c ∷ text) ∷ later)
          (trim_space whole)
        ≡ some (p, clauses))
      × (spoken clauses ≡ solid whole ++ solid whole)
leading_blank_repeats cfg blanks c text later k b n =
    let whole = concat ((blanks ++ c ∷ text) ∷ later) in
    let (p, clauses, run, all, _, _, _, _) =
      speak_reply_complete cfg ((blanks ++ c ∷ text) ∷ later) (trim_space whole) in
    let none = blank_solid blanks b in
    let rest = text ++ concat later in
    let last = trim_right is_space rest in
    let heard : is_blank (blanks ++ c ∷ text) ≡ false =
      is_empty-trim_space (blanks ++ c ∷ text)
      ∙ rw (solid_around [] blanks (c ∷ text) none, n) refl in
    let more = text ++ concat (map noted later) in
    let seen : concat (map noted ((blanks ++ c ∷ text) ∷ later)) ≡ blanks ++ c ∷ more =
      rw heard (append_assoc blanks (c ∷ text) (concat (map noted later))) in
    let trimmed : trim_space whole ≡ c ∷ last =
      ap trim_space (append_assoc blanks (c ∷ text) (concat later))
      ∙ trimmed_around blanks rest c none n in
    let tail : planner_remaining_tail (blanks ++ c ∷ more) (c ∷ last) ≡ c ∷ last =
      tail_of [] (blanks ++ c ∷ more) (c ∷ last) (rune_nonblank c last n)
        (nonempty_append blanks more c) (blank-common_length c last blanks (c ∷ more) n k none) in
    (
      p,
      clauses,
      run,
      all
          ∙ ap (λ t. solid whole ++ solid t)
              (ap₂ planner_remaining_tail seen trimmed ∙ tail ∙ sym trimmed)
          ∙ ap (λ t. solid whole ++ t) (solid-trim_space whole),
    )
