-- ===== src/InputTurn/Tests.antt =====
-- Runs of the preview of a turn, and its theorem at a concrete input.
use agent_server.Prelude.{◌≡◌, refl, true, List, [], ◌∷◌, some, if◌then◌else◌}
use agent_server.Text.{codes, text_eq}
use agent_server.Floats.{exact}
use agent_server.Preview.{InputPreview}
use agent_server.InputTurn.{
  PushReply, pushed, failed, new_input_turn_preview, push_input_preview_audio_progressively,
  push_on, record_snapshots, record_snapshot, emits_final, should_emit_final_preview_observation,
  zero_preview,
}
use agent_server.InputTurn.Commit.{commits, push_all, any_commit, push_all-commits_once}

abbrev hearing : InputPreview exact
hearing = record (zero_preview exact) { partial_text = codes "on"; speech_started = true }

abbrev done : InputPreview exact
done = record (zero_preview exact) {
  partial_text = codes "on";
  speech_started = true;
  commit_suggested = true;
}

-- The commit comes on the way of the first push; the second fails after one snapshot.
abbrev replies : List (PushReply exact)
replies = pushed (hearing ∷ done ∷ []) done ∷ failed (done ∷ []) ∷ []

one_commit : commits (push_all (some (new_input_turn_preview exact)) replies).1 ≡ 1
unfolding push_all push_input_preview_audio_progressively push_on record_snapshots record_snapshot
    emits_final should_emit_final_preview_observation new_input_turn_preview zero_preview text_eq
one_commit = refl

push_all-commits_once_example :
    commits (push_all (some (new_input_turn_preview exact)) replies).1
    ≡ (if any_commit replies then 1 else 0)
push_all-commits_once_example = push_all-commits_once exact replies
