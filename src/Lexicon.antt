-- ===== src/Lexicon.antt =====
-- What an utterance looks like from its words: the lexical tests of internal/voice/turn_detector.go,
-- internal/voice/barge_in.go and internal/voice/semantic_task_family.go.
pub mod Words
pub mod Complete
pub mod Backchannel
mod Tests
use agent_server.Prelude.{
  ℕ, Bool, true, false, not, ◌&&◌, ◌||◌, List, [], ◌∷◌, ◌++◌, reverse, ◌==◌, leb, ltb,
  if◌then◌else◌, is_empty, length, take, any, all, ◌-◌,
}
use agent_server.Text.{
  Text, codes, text_eq, has_prefix, has_suffix, contains, trim_suffix, is_space, trim_left,
  trim_right, trim_space, in_set, lower_rune, to_lower,
}
use Words.{
  chinese_incomplete_suffixes, chinese_standalone_hesitations, english_incomplete_tokens,
  english_standalone_hesitations, chinese_correction_suffixes, english_correction_tokens,
  backchannel_tokens, backchannel_runes, barge_in_takeover_lexicon, chinese_question_suffixes,
  chinese_structured_command_prefixes, english_structured_command_prefixes,
  chinese_structured_query_prefixes, english_structured_query_prefixes, english_question_prefixes,
  correction_cutset, backchannel_cutset, terminal_runes, continuing_runes, clause_runes,
  token_punctuation,
}

-- `firstNonEmpty(a, b)`: each candidate is trimmed.
unfoldable pub first_non_empty : Text → Text → Text
first_non_empty a b = if is_empty (trim_space a) then trim_space b else trim_space a

unfoldable pub matches_any_suffix : Text → List Text → Bool
unfolding has_suffix
matches_any_suffix text suffixes = any (has_suffix text) suffixes

unfoldable pub matches_any_value : Text → List Text → Bool
unfolding text_eq
matches_any_value text values = any (text_eq text) values

unfoldable pub has_any_prefix : Text → List Text → Bool
unfolding has_prefix
has_any_prefix text prefixes = any (has_prefix text) prefixes

-- 0 for an empty text.
unfoldable pub rune_at_end : Text → ℕ
rune_at_end [] = 0
rune_at_end (c ∷ []) = c
rune_at_end (c ∷ d ∷ s) = rune_at_end (d ∷ s)

-- r <= unicode.MaxASCII && unicode.IsLetter(r)
unfoldable pub is_ascii_letter : ℕ → Bool
is_ascii_letter c = leb b'a' c && leb c b'z' || leb b'A' c && leb c b'Z'

-- The loop of `trailingEnglishToken`, from the last rune back. The letters found so far stand in
-- order in `token`.
unfoldable pub trailing_token_onto : Text → Text → Text
unfolding is_ascii_letter is_space in_set lower_rune
trailing_token_onto [] token = token
trailing_token_onto (c ∷ before) token =
    let letter = is_ascii_letter c in
    let more = trailing_token_onto before (if letter then lower_rune c ∷ token else token) in
    if leb c 127 && (letter || is_empty token && (is_space c || in_set token_punctuation c))
    then more
    else token

unfoldable pub trailing_english_token : Text → Text
unfolding trailing_token_onto
trailing_english_token text = trailing_token_onto (reverse text) []

abbrev flush : Text → List Text → List Text
flush builder tokens = if is_empty builder then tokens else builder ∷ tokens

ascii_tokens_onto : Text → Text → List Text
unfolding is_ascii_letter lower_rune
ascii_tokens_onto [] builder = flush builder []
ascii_tokens_onto (c ∷ s) builder =
    let letter = is_ascii_letter c in
    let rest = ascii_tokens_onto s (if letter then builder ++ lower_rune c ∷ [] else []) in
    if letter then rest else flush builder rest

unfoldable pub ascii_word_tokens : Text → List Text
unfolding ascii_tokens_onto
ascii_word_tokens text = ascii_tokens_onto text []

unfoldable pub trim_correction : Text → Text
unfolding trim_space trim_right in_set
trim_correction s = trim_right (in_set correction_cutset) (trim_space s)

abbrev correction_suffix : Text → Text → Bool
correction_suffix trimmed suffix =
    has_suffix trimmed suffix && not (is_empty (trim_correction (trim_suffix trimmed suffix)))

-- The test on the last English word. As many runes as the word has are cut off the end of the text,
-- punctuation behind the word included.
unfoldable pub correction_token : Text → Bool
unfolding trailing_english_token trim_correction matches_any_value
correction_token trimmed =
    let token = trailing_english_token trimmed in
    matches_any_value token english_correction_tokens
    && not (is_empty (trim_correction (take (length trimmed - length token) trimmed)))

unfoldable pub looks_correction_pending : Text → Bool
unfolding trim_space correction_token has_suffix trim_suffix trim_correction
looks_correction_pending text =
    let trimmed = trim_space text in
    not (is_empty trimmed)
    && (any (correction_suffix trimmed) chinese_correction_suffixes || correction_token trimmed)

abbrev is_hesitation : List Text → Bool
is_hesitation (token ∷ []) = matches_any_value token english_standalone_hesitations
is_hesitation _ = false

-- The tests that come before the one on the last rune.
unfoldable pub looks_hesitant : Text → Bool
unfolding matches_any_value ascii_word_tokens has_suffix
looks_hesitant trimmed =
    matches_any_value trimmed chinese_standalone_hesitations
    || is_hesitation (ascii_word_tokens trimmed)
    || has_suffix trimmed (codes "...")
    || has_suffix trimmed (codes "……")

-- The tests that come after it.
unfoldable pub looks_unfinished : Text → Bool
unfolding matches_any_suffix trailing_english_token matches_any_value
looks_unfinished trimmed =
    matches_any_suffix trimmed chinese_incomplete_suffixes
    || matches_any_value (trailing_english_token trimmed) english_incomplete_tokens

unfoldable pub looks_lexically_complete : Text → Bool
unfolding trim_space looks_hesitant looks_unfinished in_set rune_at_end
looks_lexically_complete text =
    let trimmed = trim_space text in
    let last = rune_at_end trimmed in
    if is_empty trimmed || looks_hesitant trimmed
    then false
    else if in_set terminal_runes last
    then true
    else if in_set continuing_runes last
    then false
    else not (looks_unfinished trimmed)

-- Why an utterance is held back. The source has an empty string for `no_hold`.
pub data HoldReason : Type 0 where
  no_hold lexical_hold correction_hold : HoldReason

pub record UtteranceCompletenessResult : Type 0 where
  pub complete : Bool
  pub hold_reason : HoldReason

abbrev held : HoldReason → UtteranceCompletenessResult
held r = record { complete = false; hold_reason = r }

unfoldable pub analyze_utterance_completeness : Text → UtteranceCompletenessResult
analyze_utterance_completeness text =
    let trimmed = trim_space text in
    if is_empty trimmed
    then held no_hold
    else if looks_correction_pending trimmed
    then held correction_hold
    else if not (looks_lexically_complete trimmed)
    then held lexical_hold
    else record { complete = true; hold_reason = no_hold }

unfoldable pub preview_utterance_completeness : Text → Text → UtteranceCompletenessResult
preview_utterance_completeness stable_prefix partial_text =
    let stable_candidate = trim_space (first_non_empty stable_prefix partial_text) in
    let trimmed_partial = trim_space partial_text in
    let live = analyze_utterance_completeness trimmed_partial in
    if is_empty stable_candidate
    then held no_hold
    else if not (is_empty trimmed_partial) && not live.complete
    then live
    else analyze_utterance_completeness stable_candidate

unfoldable pub looks_question_closure : Text → Bool
unfolding trim_space has_suffix has_any_prefix to_lower
looks_question_closure text =
    let trimmed = trim_space text in
    not (is_empty trimmed)
    && (has_suffix trimmed (codes "吗")
        || has_suffix trimmed (codes "呢")
        || has_suffix trimmed (codes "么")
        || has_any_prefix (to_lower trimmed) english_question_prefixes)

abbrev trim_backchannel : Text → Text
trim_backchannel s =
    trim_right (in_set backchannel_cutset) (trim_left (in_set backchannel_cutset) s)

-- All the runes are the first one.
abbrev same_rune : Text → Bool
same_rune [] = true
same_rune (c ∷ s) = all (λ d. d == c) s

abbrev listed_rune : Text → Bool
listed_rune (c ∷ []) = in_set backchannel_runes c
listed_rune _ = false

unfoldable pub looks_like_backchannel : Text → Bool
looks_like_backchannel text =
    let normalized = trim_backchannel (trim_space text) in
    if is_empty normalized
    then false
    else if matches_any_value normalized backchannel_tokens
    then true
    else if ltb 4 (length normalized)
    then false
    else if listed_rune normalized
    then true
    else leb (length normalized) 3 && same_rune normalized

unfoldable pub looks_like_takeover_lexicon : Text → Bool
unfolding trim_space contains
looks_like_takeover_lexicon text =
    let normalized = trim_space text in
    not (is_empty normalized) && any (contains normalized) barge_in_takeover_lexicon

pub data TaskFamily : Type 0 where
  unknown dialogue knowledge_query structured_command structured_query : TaskFamily
  correction backchannel : TaskFamily

-- Of the constants alone, which is what `inferLexicalTaskFamily` returns.
unfoldable pub task_family_requires_slot_readiness : TaskFamily → Bool
task_family_requires_slot_readiness structured_command = true
task_family_requires_slot_readiness _ = false

unfoldable pub infer_lexical_task_family : Text → TaskFamily
infer_lexical_task_family text =
    let trimmed = trim_space text in
    if is_empty trimmed
    then unknown
    else if looks_like_backchannel trimmed
    then backchannel
    else if looks_correction_pending trimmed || looks_like_takeover_lexicon trimmed
    then correction
    else if looks_question_closure trimmed || matches_any_suffix trimmed chinese_question_suffixes
    then knowledge_query
    else if has_any_prefix trimmed chinese_structured_query_prefixes
        || has_any_prefix (to_lower trimmed) english_structured_query_prefixes
    then structured_query
    else if has_any_prefix trimmed chinese_structured_command_prefixes
        || has_any_prefix (to_lower trimmed) english_structured_command_prefixes
    then structured_command
    else dialogue
