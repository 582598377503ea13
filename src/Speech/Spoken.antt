-- ===== src/Speech/Spoken.antt =====
-- A whole reply in internal/voice/speech_planner.go: the clauses of its deltas and of its final text
-- together.
use agent_server.Prelude.{
  ℕ, ◌+◌, ◌≡◌, inl, inr, refl, sym, ◌∙◌, Bool, true, false, Bool-cases, List, [], ◌∷◌, ◌++◌,
  append-nil, append_assoc, length, length-append, concat, map, Option, some, arith, All,
  All-append,
}
use agent_server.Text.{Text}
use agent_server.Text.Trim.{trim_space-nil, IsTrimmed}
use agent_server.Speech.{
  SpeechPlanner, Planned, new_speech_planner, observe_deltas, speak_reply, finalize_text_clauses,
  planner_remaining_tail, flush_rest, map_planned,
}
use agent_server.Speech.Boundary.{SpeechPlannerConfig}
use agent_server.Speech.Clause.{PlannedSpeechClause}
use agent_server.Speech.Segment.{solid, solid-append, blank_solid}
use agent_server.Speech.Advance.{is_blank}
use agent_server.Speech.Drain.{spoken, AreNumbered, AreTidy}
use agent_server.Speech.Reply.{Plans, Returns, noted, drain_clauses-Returns, observe-Returns}

flush_rest_done :
    (p : SpeechPlanner) (clauses : List PlannedSpeechClause)
    → p.pending ≡ []
    → flush_rest (p, clauses) ≡ (record p { pending = [] }, clauses)
unfolding flush_rest
flush_rest_done p clauses e = rw (e, trim_space-nil) refl

finish :
    (p : SpeechPlanner) (observed pending : Text) (result : Option Planned)
    → Returns true p observed pending result
    → Returns true p observed pending (map_planned flush_rest result)
finish p observed pending result (p', new, e, same, plans) =
    rw (e, flush_rest_done p' new (plans.done refl))
      (
        record p' { pending = [] },
        new,
        refl,
        same,
        record {
          settled = plans.settled;
          kept = rw (plans.done refl) at plans.kept;
          numbered = plans.numbered;
          counted = plans.counted;
          tidy = plans.tidy;
          done = λ f. refl;
          ended = plans.ended;
        },
      )

pub finalize-Returns :
    (text : Text) (p : SpeechPlanner)
    → let tail = planner_remaining_tail p.observed text in
      Returns true p
        (p.observed ++ noted tail)
        (solid p.pending ++ solid tail)
        (finalize_text_clauses text p)
unfolding finalize_text_clauses
finalize-Returns text p =
    let tail = planner_remaining_tail p.observed text in
    elim (Bool-cases (is_blank tail)) [
      | inl blank ↦
          rw (blank, blank_solid tail blank, append-nil p.observed, append-nil (solid p.pending))
            (finish p p.observed (solid p.pending) _ (drain_clauses-Returns true p))
      | inr more ↦
          rw (more, sym (solid-append p.pending tail))
            (finish p (p.observed ++ tail) (solid (p.pending ++ tail)) _ (
              drain_clauses-Returns true
                (record p { observed = p.observed ++ tail; pending = p.pending ++ tail })))
    ]

spoken-append : (a b : List PlannedSpeechClause) → spoken (a ++ b) ≡ spoken a ++ spoken b
spoken-append [] b = refl
spoken-append (c ∷ a) b =
    rw (spoken-append a b) (sym (append_assoc (solid c.text) (spoken a) (spoken b)))

AreNumbered-append :
    (n m : ℕ) (a b : List PlannedSpeechClause)
    → AreNumbered n a
    → m ≡ n + length a
    → AreNumbered m b
    → AreNumbered n (a ++ b)
AreNumbered-append n m [] b h e k = let same : m ≡ n = omega arith in rw same at k
AreNumbered-append n m (c ∷ a) b h e k = (h.0, AreNumbered-append (n + 1) m a b h.1 (omega arith) k)

AreTidy-append :
    (eager : Bool) (a b : List PlannedSpeechClause)
    → AreTidy eager a
    → AreTidy eager b
    → AreTidy eager (a ++ b)
AreTidy-append eager [] b h k = k
AreTidy-append eager (c ∷ a) b h k = (h.0, h.1, h.2, AreTidy-append eager a b h.3 k)

-- One call after another: the clauses of both, as they stand.
kept-append :
    (a b : List PlannedSpeechClause) (first second pending more : Text)
    → spoken a ++ first ≡ pending
    → spoken b ++ second ≡ first ++ more
    → spoken (a ++ b) ++ second ≡ pending ++ more
kept-append a b first second pending more h k =
    rw (spoken-append a b, append_assoc (spoken a) (spoken b) second, k)
      (sym (append_assoc (spoken a) first more) ∙ rw h refl)

Plans-append :
    (cfg : SpeechPlannerConfig) (index : ℕ) (pending more : Text) (p p' : SpeechPlanner)
    (a b : List PlannedSpeechClause)
    → Plans false cfg index pending p a
    → Plans false p.cfg p.next_clause_index (solid p.pending ++ more) p' b
    → Plans false cfg index (pending ++ more) p' (a ++ b)
Plans-append cfg index pending more p p' a b h k = record {
  settled = k.settled ∙ h.settled;
  kept = kept-append a b (solid p.pending) (solid p'.pending) pending more h.kept k.kept;
  numbered = AreNumbered-append index p.next_clause_index a b h.numbered h.counted k.numbered;
  counted = omega (arith, h.counted, k.counted, length-append a b);
  tidy = AreTidy-append true a b h.tidy k.tidy;
  done = λ f. cc;
  ended = λ f. cc;
}

-- All the deltas of a reply, after the clauses so far.
pub observe_deltas-Returns :
    (deltas : List Text) (p : SpeechPlanner) (clauses : List PlannedSpeechClause)
    → (p' : SpeechPlanner) × (new : List PlannedSpeechClause) × (observe_deltas deltas (p, clauses)
        ≡ some (p', clauses ++ new))
      × (p'.observed ≡ p.observed ++ concat (map noted deltas))
      × Plans false p.cfg p.next_clause_index (solid p.pending ++ solid (concat deltas)) p' new
unfolding observe_deltas
observe_deltas-Returns [] p clauses = (
  p,
  [],
  rw (append-nil clauses) refl,
  sym (append-nil p.observed),
  record {
    settled = refl;
    kept = sym (append-nil (solid p.pending));
    numbered = tt;
    counted = omega arith;
    tidy = tt;
    done = λ f. cc;
    ended = λ f. tt;
  },
)
observe_deltas-Returns (text ∷ deltas) p clauses =
    let (p1, a, e, seen, first) = observe-Returns text p in
    let (p2, b, e', seen', second) = observe_deltas-Returns deltas p1 (clauses ++ a) in
    rw (e, e', append_assoc clauses a b, solid-append text (concat deltas))
      (
        p2,
        a ++ b,
        refl,
        seen' ∙ rw seen (append_assoc p.observed (noted text) (concat (map noted deltas))),
        rw (append_assoc (solid p.pending) (solid text) (solid (concat deltas))) at (
            Plans-append p.cfg p.next_clause_index (solid p.pending ++ solid text)
              (solid (concat deltas)) p1 p2 a b first second),
      )

-- A text to speak: it is not blank, and no blanks stand around it.
abbrev pub HasText : PlannedSpeechClause → Type 0
HasText c = (is_blank c.text ≡ false) × IsTrimmed c.text

AreTidy-texts :
    (eager : Bool) (clauses : List PlannedSpeechClause)
    → AreTidy eager clauses
    → All HasText clauses
AreTidy-texts eager [] h = tt
AreTidy-texts eager (c ∷ clauses) h = ((h.0, h.1), AreTidy-texts eager clauses h.3)

-- Whatever the deltas are, and whatever the final text is: every call returns; the clauses, in their
-- order, speak the runes of the deltas and of the remaining tail that are no blanks, each once;
-- their indices count from 0 on; the text of none is blank or has blanks around it; nothing waits in
-- the end.
pub speak_reply_complete :
    (cfg : SpeechPlannerConfig) (deltas : List Text) (final : Text)
    → let tail = planner_remaining_tail (concat (map noted deltas)) final in
      (p : SpeechPlanner) × (clauses : List PlannedSpeechClause) × (speak_reply cfg deltas final
        ≡ some (p, clauses))
      × (spoken clauses ≡ solid (concat deltas) ++ solid tail)
      × AreNumbered 0 clauses
      × All HasText clauses
      × (p.next_clause_index ≡ length clauses)
      × (p.pending ≡ [])
unfolding speak_reply new_speech_planner
speak_reply_complete cfg deltas final =
    let (p1, a, e, seen, first) = observe_deltas-Returns deltas (new_speech_planner cfg) [] in
    let (p2, b, e', _, second) = finalize-Returns final p1 in
    rw (e, e', sym seen)
      (
        p2,
        a ++ b,
        refl,
        sym (append-nil (spoken (a ++ b)))
            ∙ rw (second.done refl) at (
                kept-append a b (solid p1.pending) (solid p2.pending) (solid (concat deltas))
                  (solid (planner_remaining_tail p1.observed final)) first.kept second.kept),
        AreNumbered-append 0 p1.next_clause_index a b first.numbered first.counted second.numbered,
        All-append HasText a b (AreTidy-texts true a first.tidy)
            (AreTidy-texts false b second.tidy),
        omega (arith, first.counted, second.counted, length-append a b),
        second.done refl,
      )
