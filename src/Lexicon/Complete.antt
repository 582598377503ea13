-- ===== src/Lexicon/Complete.antt =====
-- Completeness of an utterance: internal/voice/turn_detector.go.
use agent_server.Prelude.{
  ℕ, ◌≡◌, refl, inl, inr, ◌⊎◌, Bool, true, false, not, ◌&&◌, List, [], ◌∷◌, ◌++◌, all, any,
  &&_parts, ◌==◌, ==_iff, Bool-cases, is_empty, arith,
}
use agent_server.Text.{Text, text_eq, trim_space, in_set}
use agent_server.Text.Laws.{text_eq→eq}
use agent_server.Text.Trim.{trim_space-IsTrimmed}
use agent_server.Lexicon.{
  looks_correction_pending, looks_lexically_complete, analyze_utterance_completeness,
  looks_question_closure, looks_like_backchannel, looks_like_takeover_lexicon,
  infer_lexical_task_family, matches_any_value, no_hold, lexical_hold, correction_hold,
  preview_utterance_completeness,
}
use agent_server.Lexicon.Words.{english_correction_tokens, token_punctuation}

-- Blanks round a text change none of the lexical tests.
pub lexicon_ignores_blanks :
    (t : Text)
    → (looks_correction_pending (trim_space t) ≡ looks_correction_pending t)
      × (looks_lexically_complete (trim_space t) ≡ looks_lexically_complete t)
      × (analyze_utterance_completeness (trim_space t) ≡ analyze_utterance_completeness t)
      × (looks_question_closure (trim_space t) ≡ looks_question_closure t)
      × (looks_like_backchannel (trim_space t) ≡ looks_like_backchannel t)
      × (looks_like_takeover_lexicon (trim_space t) ≡ looks_like_takeover_lexicon t)
      × (infer_lexical_task_family (trim_space t) ≡ infer_lexical_task_family t)
lexicon_ignores_blanks t =
    let e = trim_space-IsTrimmed t in
    (
      unfold looks_correction_pending in rw e,
      unfold looks_lexically_complete in rw e,
      unfold analyze_utterance_completeness in rw e,
      unfold looks_question_closure in rw e,
      unfold looks_like_backchannel in rw e,
      unfold looks_like_takeover_lexicon in rw e,
      unfold infer_lexical_task_family in rw e,
    )

-- A value that a Boolean test finds in a list has every property that the whole list has.
all_sound :
    (p : Text → Bool) (xs : List Text) (x : Text)
    → all p xs ≡ true
    → any (text_eq x) xs ≡ true
    → p x ≡ true
all_sound p [] x h k = cc
all_sound p (y ∷ xs) x h k = elim (Bool-cases (text_eq x y)) [
  | inl same ↦ rw (text_eq→eq x y same) (&&_parts (p y) (all p xs) h).0
  | inr other ↦ all_sound p xs x (&&_parts (p y) (all p xs) h).1 (rw other at k)
]

rune_sound :
    (p : ℕ → Bool) (xs : Text) (x : ℕ) → all p xs ≡ true → any (λ d. x == d) xs ≡ true → p x ≡ true
rune_sound p [] x h k = cc
rune_sound p (y ∷ xs) x h k = elim (Bool-cases (x == y)) [
  | inl same ↦ rw ((==_iff x y).0 same) (&&_parts (p y) (all p xs) h).0
  | inr other ↦ rune_sound p xs x (&&_parts (p y) (all p xs) h).1 (rw other at k)
]

abbrev pending_only_with : Text → ℕ → Bool
pending_only_with w c = not (looks_correction_pending w) && looks_correction_pending (w ++ c ∷ [])

correction_table :
    all (λ w. all (pending_only_with w) token_punctuation) english_correction_tokens ≡ true
unfolding looks_correction_pending
correction_table = refl

-- An English correction word alone, such as "wait", is no pending correction, since no text stands before
-- it; but the same word with one of the marks behind it that are trimmed off a trailing token, such
-- as "wait.", is taken for one: the word's length is cut off the end, mark included, and the word's
-- first letter is left. (The marks are . , ! ? ; : and the brackets and quotes of ASCII; the dash
-- and the slash are none of them.)
pub correction-punctuation :
    (w : Text) (c : ℕ)
    → matches_any_value w english_correction_tokens ≡ true
    → in_set token_punctuation c ≡ true
    → (looks_correction_pending w ≡ false) × (looks_correction_pending (w ++ c ∷ []) ≡ true)
unfolding matches_any_value in_set
correction-punctuation w c hw hc =
    let row =
      all_sound (λ v. all (pending_only_with v) token_punctuation) english_correction_tokens w
        correction_table hw in
    let cell = rune_sound (pending_only_with w) token_punctuation c row hc in ground (arith, cell)

-- An utterance that is not complete has a reason to be held, unless it is blank; a complete one has
-- none, is not blank, ends in no pending correction and is lexically complete.
pub completeness_reasons :
    (t : Text)
    → let r = analyze_utterance_completeness t in
      (r.complete ≡ true
        → (r.hold_reason ≡ no_hold)
          × (is_empty (trim_space t) ≡ false)
          × (looks_correction_pending t ≡ false)
          × (looks_lexically_complete t ≡ true))
      × (r.complete ≡ false
          → is_empty (trim_space t) ≡ false
          → ((r.hold_reason ≡ correction_hold) × (looks_correction_pending t ≡ true))
            ⊎ ((r.hold_reason ≡ lexical_hold) × (looks_lexically_complete t ≡ false)))
unfolding analyze_utterance_completeness
completeness_reasons t = let blanks = lexicon_ignores_blanks t in ground (arith, blanks.0, blanks.1)

-- The preview of an utterance is complete only if its live partial is: an earlier stable prefix
-- that was complete does not make an unfinished continuation count.
pub preview-needs_live :
    (stable partial : Text)
    → (preview_utterance_completeness stable partial).complete ≡ true
    → is_empty (trim_space partial) ≡ false
    → (analyze_utterance_completeness partial).complete ≡ true
unfolding preview_utterance_completeness
preview-needs_live stable partial h k =
    let same = (lexicon_ignores_blanks partial).2 in ground (arith, same)
