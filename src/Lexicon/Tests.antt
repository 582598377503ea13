-- ===== src/Lexicon/Tests.antt =====
-- Runs of the lexical tests.
use agent_server.Prelude.{◌≡◌, is_empty, refl, true, false, [], ◌∷◌}
use agent_server.Text.{Text, is_space, codes, trim_space, to_lower, trim_left, trim_right, in_set}
use agent_server.Lexicon.{
  looks_correction_pending, looks_lexically_complete, looks_like_backchannel, ascii_word_tokens,
  looks_question_closure, trailing_english_token, infer_lexical_task_family, structured_command,
  looks_like_takeover_lexicon, has_any_prefix, analyze_utterance_completeness,
  preview_utterance_completeness, backchannel, first_non_empty, looks_question_closure,
  matches_any_suffix, matches_any_value,
}
use agent_server.Lexicon.Words.{english_correction_tokens, token_punctuation, backchannel_cutset}
use agent_server.Lexicon.Complete.{correction-punctuation}
use agent_server.Lexicon.Backchannel.{single_rune_backchannel}

wait_alone : looks_correction_pending (codes "wait") ≡ false
unfolding looks_correction_pending
wait_alone = refl

wait_stop : looks_correction_pending (codes "wait.") ≡ true
unfolding looks_correction_pending
wait_stop = refl

turn_on_then : looks_lexically_complete (codes "turn on the light and ") ≡ false
unfolding looks_lexically_complete
turn_on_then = refl

open_the_light : looks_lexically_complete (codes "打开客厅的灯") ≡ true
unfolding looks_lexically_complete
open_the_light = refl

words : ascii_word_tokens (codes "Uh, OK 了 go") ≡ codes "uh" ∷ codes "ok" ∷ codes "go" ∷ []
unfolding ascii_word_tokens
words = refl

last_word : trailing_english_token (codes "turn it OFF!) ") ≡ codes "off"
unfolding trailing_english_token
last_word = refl

family : infer_lexical_task_family (codes " Turn on the lamp") ≡ structured_command
unfolding infer_lexical_task_family trim_space looks_like_backchannel looks_correction_pending
    looks_like_takeover_lexicon looks_question_closure matches_any_suffix has_any_prefix to_lower
    trim_left trim_right in_set matches_any_value
family = refl

wait_is_listed : matches_any_value (codes "wait") english_correction_tokens ≡ true
unfolding matches_any_value
wait_is_listed = refl

stop_is_a_mark : in_set token_punctuation b'.' ≡ true
unfolding in_set
stop_is_a_mark = refl

correction-punctuation_example :
    (looks_correction_pending (codes "wait") ≡ false)
    × (looks_correction_pending (codes "wait.") ≡ true)
correction-punctuation_example =
    correction-punctuation (codes "wait") b'.' wait_is_listed stop_is_a_mark

abbrev dangling : Text
dangling = codes "turn it on and"

stop_rune : is_space 0x505c ≡ false
unfolding is_space
stop_rune = refl

not_cut : in_set backchannel_cutset 0x505c ≡ false
unfolding in_set
not_cut = refl

single_rune_backchannel_example :
    (looks_like_backchannel (codes "停") ≡ true)
    × (infer_lexical_task_family (codes "停") ≡ backchannel)
single_rune_backchannel_example = single_rune_backchannel 0x505c stop_rune not_cut

preview_on : (preview_utterance_completeness [] (codes "open it")).complete ≡ true
unfolding preview_utterance_completeness analyze_utterance_completeness looks_correction_pending
    looks_lexically_complete trim_space trim_left trim_right first_non_empty
preview_on = refl

open_it : is_empty (trim_space (codes "open it")) ≡ false
unfolding trim_space trim_left trim_right
open_it = refl
